-- ===== src/Search/Found.antt =====
-- The names that the searches so far have found.
use go_adldap.Base.{◌≡◌, refl, ◌⊎◌, inl, inr, some, List, [], ◌∷◌, Outcome, ok, err}
use go_adldap.Base.Bytes.{Bytes}
use go_adldap.Directory.{
  Entry, Identity, by_guid, by_sid, by_sam, by_dn, OpError, Request, Reply, ◌>>=◌, pure,
}
use go_adldap.Directory.Logic.{History, Holds, Holds-bind}
use go_adldap.Adcore.{Adcore}
use go_adldap.Search.{get_one, resolve_dn}
use go_adldap.Search.Laws.{IsSearch, IsOnly, last_reply, get_one-IsOnly}

-- Some request so far was answered by one entry and no other, and `P` holds of the two.
abbrev pub Saw : (Request → Entry → Type 0) → History → Type 0
Saw P [] = ⊥
Saw P ((r, x) ∷ h) = ((e : Entry) × (x ≡ ok (e ∷ [])) × P r e) ⊎ Saw P h

-- The last reply was one entry, named `dn`.
abbrev pub IsLast : Bytes → History → Type 0
IsLast dn h = (e : Entry) × (last_reply h ≡ some (ok (e ∷ []))) × (dn ≡ e.dn)

pub last_reply-Saw :
    (P : Entry → Type 0) (h : History) (e : Entry)
    → last_reply h ≡ some (ok (e ∷ []))
    → P e
    → Saw (λ r e'. P e') h
last_reply-Saw P [] e l p = cc
last_reply-Saw P ((r, x) ∷ h) e l p = inl (e, cc, p)

-- Some reply so far was one entry, named `dn`.
abbrev pub FoundIn : Bytes → History → Type 0
FoundIn dn h = Saw (λ r e. dn ≡ e.dn) h

pub IsLast-FoundIn : (dn : Bytes) (h : History) → IsLast dn h → FoundIn dn h
IsLast-FoundIn dn h (e, l, same) = last_reply-Saw (λ e'. dn ≡ e'.dn) h e l same

-- A DN names an object: the identity states it, or a search found it alone.
abbrev pub Names : Identity → Bytes → History → Type 0
Names (by_dn arg) dn h = dn ≡ arg
Names (by_guid arg) dn h = FoundIn dn h
Names (by_sid arg) dn h = FoundIn dn h
Names (by_sam arg) dn h = FoundIn dn h

pub Names-more :
    (id : Identity) (dn : Bytes) (h : History) (r : Request) (x : Reply)
    → Names id dn h
    → Names id dn ((r, x) ∷ h)
Names-more (by_dn arg) dn h r x n = n
Names-more (by_guid arg) dn h r x n = inr n
Names-more (by_sid arg) dn h r x n = inr n
Names-more (by_sam arg) dn h r x n = inr n

abbrev pub IsNamed : Identity → History → Outcome OpError Bytes → Type 0
IsNamed id h (ok dn) = Names id dn h
IsNamed id h (err e) = Unit

module _ (lib : Adcore) (dnc : Bytes) where
  found-IsNamed :
      (h : History) (id : Identity) (object_class : Bytes) (want : List Bytes)
      → ((dn : Bytes) (h' : History) → FoundIn dn h' → Names id dn h')
      → Holds IsSearch (IsNamed id) h (get_one lib dnc id object_class want [] >>= λ e. pure e.dn)
  found-IsNamed h id object_class want names =
      Holds-bind IsSearch IsOnly (IsNamed id) h _ _
        (get_one-IsOnly lib dnc h id object_class want [])
        (λ h' e l. names e.dn h' (IsLast-FoundIn e.dn h' (e, l, refl))) (λ h' e k. tt)

  pub resolve_dn-IsNamed :
      (h : History) (id : Identity) → Holds IsSearch (IsNamed id) h (resolve_dn lib dnc id)
  unfolding resolve_dn
  resolve_dn-IsNamed h (by_dn arg) = refl
  resolve_dn-IsNamed h (by_guid arg) = found-IsNamed h (by_guid arg) _ _ (λ dn h' f. f)
  resolve_dn-IsNamed h (by_sid arg) = found-IsNamed h (by_sid arg) _ _ (λ dn h' f. f)
  resolve_dn-IsNamed h (by_sam arg) = found-IsNamed h (by_sam arg) _ _ (λ dn h' f. f)
