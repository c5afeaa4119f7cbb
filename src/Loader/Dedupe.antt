-- ===== src/Loader/Dedupe.antt =====
-- `sortAndDeduplicate` (licenses.go): one license for each uid, the history of active licenses and
-- the hooks.
pub mod Newest
pub mod History
pub mod Calls
pub mod Hooks
use kustomer.Common.{
  String, Bool, true, false, not, Option, none, some, List, [], ◌∷◌, ◌++◌, ite, if◌then◌else◌,
  string_dec,
}
use kustomer.Common.Map.{Map, get, put, remove, has}
use kustomer.License.{Claims}
use kustomer.Loader.Jose.{Jose}
use kustomer.Loader.Sort.{sort_newest}

-- A call of one of the four hooks of `LicensesLoader`. A hook that is nil is not called.
pub data Hook (F : Type 0) : Type 0 where
  on_activate on_remove on_new on_skip : Claims F → Hook F

-- The variables of the deduplication. `activate_history` is `none` for a nil map.
pub record Dedupe (F : Type 0) : Type 0 where
  pub all : Map (Claims F)
  pub added : Map Bool
  pub activate_history : Option (Map (Claims F))
  pub seen : Map Bool
  pub result : List (Claims F)
  pub hooks : List (Hook F)

-- `if c.LicenseFileID != "" { seen[c.LicenseFileID] = true }`
mark_seen : String → Map Bool → Map Bool
mark_seen uid seen = ite (string_dec uid "") seen (put uid true seen)

module _ {F : Type 0} where
  -- `_, ok := ll.ActivateHistory[id]`
  pub was_active : Option (Map (Claims F)) → String → Bool
  was_active none id = false
  was_active (some history) id = has id history

  pub activate : Option (Map (Claims F)) → Claims F → Option (Map (Claims F))
  activate none c = none
  activate (some history) c = some (put c.license_id c history)

  -- The first half of the loop body: `all`, `added` and the history.
  register : Dedupe F → Claims F → Dedupe F
  register s c =
      if was_active s.activate_history c.license_id
      then record s { all = put c.license_id c s.all; added = put c.license_id false s.added }
      else record s {
        all = put c.license_id c s.all;
        added = put c.license_id true s.added;
        activate_history = activate s.activate_history c;
      }

  call_if : Bool → Hook F → List (Hook F) → List (Hook F)
  call_if b h hooks = if b then hooks ++ h ∷ [] else hooks

  -- The second half: the result, newest last.
  collect_license : Bool → Dedupe F → Claims F → Dedupe F
  collect_license is_new s c =
      if has c.license_file_id s.seen
      then record s { hooks = call_if is_new (on_skip c) s.hooks }
      else record s {
        seen = mark_seen c.license_file_id s.seen;
        result = c ∷ s.result;
        hooks = call_if is_new (on_activate c) s.hooks;
      }

  unfoldable pub dedupe_step : Dedupe F → Claims F → Dedupe F
  unfolding was_active activate register call_if mark_seen collect_license
  dedupe_step s c =
      collect_license (not (was_active s.activate_history c.license_id)) (register s c) c

  unfoldable pub dedupe : Dedupe F → List (Claims F) → Dedupe F
  dedupe s [] = s
  dedupe s (c ∷ cs) = dedupe (dedupe_step s c) cs

  -- The loop over the history: what was not found again is deleted.
  unfoldable pub removals : Map Bool → Map (Claims F) → List (Hook F)
  removals added [] = []
  removals added ((k, c) ∷ history) =
      let rest = removals added history in if has k added then rest else on_remove c ∷ rest

  unfoldable pub kept : Map Bool → Map (Claims F) → Map (Claims F)
  kept added [] = []
  kept added ((k, c) ∷ history) =
      let rest = kept added history in if has k added then (k, c) ∷ rest else rest

  -- `OnNew(all[k])` for one entry of `added`
  new_hook : Map (Claims F) → String → Bool → List (Hook F)
  new_hook all k false = []
  new_hook all k true = elim (get k all) [ none ↦ [] | some c ↦ on_new c ∷ [] ]

  -- The loop over `added`.
  unfoldable pub additions : Map (Claims F) → Map Bool → List (Hook F)
  unfolding new_hook
  additions all [] = []
  additions all ((k, v) ∷ added) = new_hook all k v ++ additions all added

  pub removals_of : Map Bool → Option (Map (Claims F)) → List (Hook F)
  removals_of added none = []
  removals_of added (some history) = removals added history

  pub kept_of : Map Bool → Option (Map (Claims F)) → Option (Map (Claims F))
  kept_of added none = none
  kept_of added (some history) = some (kept added history)

-- What `sortAndDeduplicate` returns, leaves in `ActivateHistory` and calls.
pub record Active (F : Type 0) : Type 0 where
  pub claims : List (Claims F)
  pub activate_history : Option (Map (Claims F))
  pub hooks : List (Hook F)

abbrev pub dedupe_start : {F : Type 0} → Option (Map (Claims F)) → Dedupe F
dedupe_start history = record {
  all = [];
  added = [];
  activate_history = history;
  seen = [];
  result = [];
  hooks = [];
}

unfoldable pub sort_and_deduplicate :
    {F : Type 0} → Jose F → Option (Map (Claims F)) → List (Claims F) → Active F
unfolding removals_of kept_of
sort_and_deduplicate j history claims =
    let s = dedupe (dedupe_start history) (sort_newest j claims) in
    record {
      claims = s.result;
      activate_history = kept_of s.added s.activate_history;
      hooks = s.hooks ++ removals_of s.added s.activate_history ++ additions s.all s.added;
    }
