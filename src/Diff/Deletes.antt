-- ===== src/Diff/Deletes.antt =====
-- src/diff/diff.ts: the identities that a snapshot has lost.
use watukuy.Base.{
  String, List, not, elem, In, filter-In, In-filter, ◌≡◌, true, false, arith, refl, string_eq,
}
use watukuy.Base.Sort.{IsSorted, sort-IsSorted, In-sort, sort-In}
use watukuy.Base.Text.{str_leb, str_leb_total, str_leb_trans}
use watukuy.Diff.{detect_deletes}

-- The result is sorted, and holds exactly the stored identities that were not seen.
pub detect_deletes_lem :
    (existing seen : List String)
    → IsSorted str_leb (detect_deletes existing seen)
      × ((id : String)
          → In id (detect_deletes existing seen)
          → In id existing × (elem id seen ≡ false))
      × ((id : String)
          → In id existing
          → elem id seen ≡ false
          → In id (detect_deletes existing seen))
unfolding detect_deletes
detect_deletes_lem existing seen = (
  sort-IsSorted str_leb str_leb_total str_leb_trans _,
  λ id m. found id (filter-In (λ i. not (elem i seen)) existing id (sort-In str_leb id _ m)),
  λ id m n. In-sort str_leb id _ (In-filter (λ i. not (elem i seen)) existing id (rw n refl) m),
)
  where
    found :
        (id : String)
        → In id existing × (not (elem id seen) ≡ true)
        → In id existing × (elem id seen ≡ false)
    found id p = (p.0, ground (arith, p.1))
