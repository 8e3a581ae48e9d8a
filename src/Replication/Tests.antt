-- ===== src/Replication/Tests.antt =====
-- A wait for two targets, of which one has the object from the second round on.
use go_adldap.Base.{ℕ, Bool, true, [], ◌∷◌, leb, if◌then◌else◌, ok}
use go_adldap.Base.Bytes.{Bytes}
use go_adldap.Base.Text.{codes, same_text}
use go_adldap.Directory.{SearchRequest, Reply}
use go_adldap.Search.Tests.{example_dn}
use go_adldap.Replication.{ReplicationConfig}

abbrev config : ReplicationConfig
config = record { wait = true; targets = codes "a" ∷ codes "b" ∷ []; force_sync = true }

abbrev answer : ℕ → Bytes → SearchRequest → Reply
answer round target r =
    if same_text target (codes "a")
    then ok (record { dn = example_dn; attrs = [] } ∷ [])
    else if leb 1 round
    then ok (record { dn = example_dn; attrs = [] } ∷ [])
    else ok []

abbrev late : ℕ → Bool
late round = leb 3 round
