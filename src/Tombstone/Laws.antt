-- ===== src/Tombstone/Laws.antt =====
-- The probe for deleted objects only searches.
use go_adldap.Base.{Bool, true, false, not, ◌∷◌, is_empty, if◌then◌else◌, ok, err}
use go_adldap.Base.Bytes.{Bytes}
use go_adldap.Directory.{OpError, search, Reply, pure, fail, attempt, ◌>>=◌}
use go_adldap.Directory.Logic.{History, Holds}
use go_adldap.Adcore.{is_kind_already_exists}
use go_adldap.Search.Laws.{IsSearch}
use go_adldap.Operation.Laws.{Anything}
use go_adldap.Tombstone.{
  deleted_request, deleted_matches, tombstone, probe_deleted, annotate_already_exists,
}

module _ (dnc : Bytes) where
  pub annotate_already_exists-IsSearch :
      (h : History) (e : OpError) (dn filter : Bytes)
      → Holds {A = Unit {0}} IsSearch Anything h (annotate_already_exists dnc e dn filter >>= fail)
  unfolding annotate_already_exists probe_deleted
  annotate_already_exists-IsSearch h e dn filter =
      by_kind (not (is_kind_already_exists e.kind))
        (record e { target = if is_empty e.target then dn else e.target })
    where
      by_reply :
          (e' : OpError) (x : Reply)
          → Holds {A = Unit {0}} IsSearch Anything
              ((search (deleted_request dnc filter), x) ∷ h)
              (attempt (deleted_matches x) >>= (λ found. pure (tombstone e' found)) >>= fail)
      by_reply e' (ok entries) = tt
      by_reply e' (err bad) = tt

      by_kind :
          (b : Bool) (e' : OpError)
          → Holds {A = Unit {0}} IsSearch Anything h (
              (if b
                then pure e
                else attempt (probe_deleted dnc filter) >>= λ found. pure (tombstone e' found))
              >>= fail)
      by_kind true e' = tt
      by_kind false e' = (tt, λ x. by_reply e' x)
