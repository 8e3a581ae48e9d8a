-- ===== src/Replication/Laws.antt =====
-- The wait ends, and says which of the targets have the object.
use go_adldap.Base.{
  ℕ, ◌≡◌, Bool, true, false, Option, none, some, List, All, is_empty, Outcome, ok, err,
}
use go_adldap.Base.Bytes.{Bytes}
use go_adldap.Directory.{SearchRequest, OpError, Request, Reply}
use go_adldap.Directory.Logic.{History}
use go_adldap.Replication.{
  ReplicationConfig, Waited, arrived, late_on, interrupted, sync_request, object_present_on,
}

module _ (dnc server : Bytes) (config : ReplicationConfig)
    (answer : ℕ → Bytes → SearchRequest → Reply) (late cancelled : ℕ → Bool)
    (guid object_filter : Bytes) where
  abbrev on : ℕ → Bytes → Bool
  on round target =
      object_present_on dnc server config answer late cancelled guid object_filter round target

  -- The requests ask for the replication of the object, and no more.
  abbrev pub IsSync : History → Request → Type 0
  IsSync h r = (target : Bytes) × (r ≡ sync_request dnc server config guid target)

  -- In some round the target had the object.
  abbrev pub HasObject : Bytes → Type 0
  HasObject target = (round : ℕ) × (on round target ≡ true)

  -- What the end of a wait says.
  abbrev pub IsWaited : List Bytes → History → Outcome OpError (Option Waited) → Type 0
  IsWaited targets h (ok (some arrived)) = All HasObject targets
  IsWaited targets h (ok (some (late_on still))) =
      (round : ℕ) × (late round ≡ true)
      × (is_empty still ≡ false)
      × All (λ target. on round target ≡ false) still
  IsWaited targets h (ok (some interrupted)) = (round : ℕ) × (cancelled round ≡ true)
  IsWaited targets h (ok none) = ⊥
  IsWaited targets h (err e) = ⊥

  abbrev IsDropped : History → Outcome OpError (Outcome OpError (Unit {0})) → Type 0
  IsDropped h (ok o) = Unit
  IsDropped h (err e) = ⊥

  -- Of a pass: who is not pending any more has the object, and who is has it not.
  abbrev IsPolled : ℕ → List Bytes → History → Outcome OpError (List Bytes) → Type 0
  IsPolled round pending h (ok still) =
      (All HasObject still → All HasObject pending) × All (λ target. on round target ≡ false) still
  IsPolled round pending h (err e) = ⊥
