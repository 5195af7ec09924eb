-- ===== src/Engine/Partitions.antt =====
-- src/core/engine.ts: the partitions of a poller, listed anew. Of a partition its key is kept.
use watukuy.Base.{
  ℕ, ◌-◌, Bool, true, false, not, ◌&&◌, String, string_eq, Option, none, some, List, [], ◌∷◌, elem,
  ltb, ◌==◌, if◌then◌else◌,
}
use watukuy.Base.Map
use watukuy.Base.Map.{Map}
use watukuy.Types.{PKey, pkey_eq, Result, ok, err, config, ◌>>=◌}
use watukuy.Store.{save_state_unfenced}
use watukuy.Runner.Cycle.{no_patch}
use watukuy.Engine.{Engine}
use Prim.Native.String.{◌++◌ as append}

-- `PollerRuntime`: the partitions that were listed, and when; `partitioned` is `def.partitions`.
pub record Listed : Type 0 where
  pub partitioned : Bool
  pub partitions : List String
  pub loaded_at : Option ℕ

-- What `partitions()` answers: keys, or an error of the user's code, which is logged.
pub data Listing : Type 0 where
  listed : List String → Listing
  threw : Listing

-- The partitions are fresh enough.
abbrev pub is_fresh : Bool → Option ℕ → ℕ → ℕ → Bool
is_fresh force none now refresh_ms = false
is_fresh force (some at) now refresh_ms = not force && ltb (now - at) refresh_ms

module _ (poller : String) where
  abbrev pub key_of : String → PKey
  key_of partition = record { poller = poller; partition = partition }

  abbrev pub refused : String → String
  refused text = append "poller '" (append poller (append "': " text))

  -- Every key is a text that is not empty, and comes once.
  unfoldable pub check_keys : List String → List String → Result (Unit {0})
  check_keys seen [] = ok tt
  check_keys seen (p ∷ ps) =
      let rest = check_keys (p ∷ seen) ps in
      if p == ""
      then err (config (refused "every partition needs a non-empty string key"))
      else if elem p seen
      then err (config (refused (append "duplicate partition key '" (append p "'"))))
      else rest

  module _ (now : ℕ) where
    abbrev pub paused_gone : String → Engine → Engine
    paused_gone p e = record {
      store =
          save_state_unfenced e.store (key_of p)
            (record no_patch { paused = some true; updated_at = some now });
      next_due = Map.delete (key_of p) e.next_due;
    }

    abbrev pub pause_unless : Bool → String → Engine → Engine
    pause_unless true p e = e
    pause_unless false p e = paused_gone p e

    -- The partitions that disappeared are paused.
    unfoldable pub pause_gone : List String → List String → Engine → Engine
    unfolding save_state_unfenced
    pause_gone seen [] e = e
    pause_gone seen (old ∷ olds) e = pause_gone seen olds (pause_unless (elem old seen) old e)

    abbrev pub seed_one : String → Map PKey ℕ → Map PKey ℕ
    seed_one p due = if Map.has (key_of p) due then due else Map.set (key_of p) now due

    -- Those that are new are due.
    unfoldable pub seed_due : List String → Map PKey ℕ → Map PKey ℕ
    seed_due [] due = due
    seed_due (p ∷ ps) due = seed_due ps (seed_one p due)

    abbrev pub replaced : Listed → List String → Engine → Listed × Engine
    replaced rt ps e =
        let gone = pause_gone ps rt.partitions e in
        (
          record rt { partitions = ps; loaded_at = some now },
          record gone { next_due = seed_due ps gone.next_due },
        )

    abbrev pub with_listing : Listed → Engine → Listing → Result (Listed × Engine)
    with_listing rt e threw = ok (rt, e)
    with_listing rt e (listed ps) = check_keys [] ps >>= λ _. ok (replaced rt ps e)

    unfoldable pub refresh_partitions :
        Bool → ℕ → Listing → Listed → Engine → Result (Listed × Engine)
    unfolding check_keys pause_gone seed_due
    refresh_partitions force refresh_ms answer rt e =
        if not rt.partitioned
        then ok (rt, e)
        else if is_fresh force rt.loaded_at now refresh_ms
        then ok (rt, e)
        else with_listing rt e answer

  -- `resolvePartition`: the key alone, for a partition that is not listed too.
  unfoldable pub resolve_partition : Bool → Option String → Result String
  resolve_partition false partition = ok ""
  resolve_partition true none =
      err (config (append "poller '" (append poller "' is partitioned; pass { partition }")))
  resolve_partition true (some partition) = ok partition
