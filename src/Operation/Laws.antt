-- ===== src/Operation/Laws.antt =====
-- The delete that is confirmed by a read.
use go_adldap.Base.{
  ◌≡◌, refl, Bool, true, false, ◌∷◌, if◌then◌else◌, Outcome, ok, err, Option, none, some,
}
use go_adldap.Base.Bytes.{Bytes}
use go_adldap.LdapErr.{not_found}
use go_adldap.Directory.{
  Identity, OpError, Request, delete, Reply, Proc, pure, fail, attempt, map_error, ◌>>=◌,
}
use go_adldap.Directory.Logic.{History, Holds, Holds-bind, Holds-attempt}
use go_adldap.Adcore.{Adcore}
use go_adldap.Search.Laws.{SaysGone, FindsNone}
use go_adldap.Operation.{finished, modelled, confirm_gone, delete_and_confirm}

abbrev pub Anything : {A : Type 0} → History → Outcome OpError A → Type 0
Anything h o = Unit

-- A success is backed by the domain controller's last word.
abbrev pub IsGone : History → Outcome OpError (Unit {0}) → Type 0
IsGone h (ok done_so) = SaysGone h
IsGone h (err e) = Unit

-- The outcome of a read that is inspected.
abbrev pub Inspects :
    {A : Type 0}
    → (History → Outcome OpError A → Type 0)
    → History
    → Outcome OpError (Outcome OpError A)
    → Type 0
Inspects R h (ok o) = R h o
Inspects R h (err e) = ⊥

module _ {A : Type 0} (Q : History → Request → Type 0) where
  pub modelled-FindsNone : (h : History) (m : Option A) → Holds Q FindsNone h (modelled m)
  modelled-FindsNone h none = λ bad. cc
  modelled-FindsNone h (some m) = tt

module _ (Q : History → Request → Type 0) where
  pub finished-Holds : (h : History) (x : Reply) → Holds Q Anything h (finished x)
  finished-Holds h (ok entries) = tt
  finished-Holds h (err e) = tt

module _ (Q : History → Request → Type 0) (lib : Adcore)
    (means : (e : OpError) → lib.is_not_found e ≡ true → e.kind ≡ not_found) where
  -- A not-found error is success; every other is returned.
  pub none-IsGone :
      (h : History) (e : OpError)
      → (e.kind ≡ not_found → SaysGone h)
      → Holds Q IsGone h (if lib.is_not_found e then pure tt else fail e)
  none-IsGone h e finds = by_test (lib.is_not_found e) refl
    where
      by_test :
          (b : Bool) → lib.is_not_found e ≡ b → Holds Q IsGone h (if b then pure tt else fail e)
      by_test true is = finds (means e is)
      by_test false is = tt

  confirm_gone-IsGone :
      {A : Type 0} (h : History) (dn : Bytes) (o : Outcome OpError A)
      → FindsNone h o
      → Holds Q IsGone h (confirm_gone lib dn o)
  confirm_gone-IsGone h dn (ok m) finds = tt
  confirm_gone-IsGone h dn (err e) finds = none-IsGone h e finds

  pub delete_and_confirm-IsGone :
      {A : Type 0} (h : History) (id : Identity) (dn : Bytes) (again : Proc A)
      → Q h (delete dn)
      → ((h' : History) → Holds Q FindsNone h' again)
      → Holds Q IsGone h (delete_and_confirm lib id dn again)
  delete_and_confirm-IsGone h id dn again allowed reads = (allowed, λ x. by_reply x)
    where
      by_reply :
          (x : Reply)
          → Holds Q IsGone ((delete dn, x) ∷ h) (
              map_error (λ e. lib.with_identity e id) (finished x) >>= λ u.
              attempt again >>= confirm_gone lib dn)
      by_reply (err e) = tt
      by_reply (ok entries) =
          Holds-bind Q (Inspects FindsNone) IsGone _ _ _
            (Holds-attempt Q FindsNone (Inspects FindsNone) _ _ (reads _) (λ h' o k. k))
            (λ h' o k. confirm_gone-IsGone h' dn o k) (λ h' e k. tt)

-- A read whose outcome decides how a delete goes on.
pub found-IsGone :
    {A : Type 0} (Q : History → Request → Type 0) (R : History → Outcome OpError A → Type 0)
    (h : History) (get : Proc A) (go_on : Outcome OpError A → Proc (Unit {0}))
    → Holds Q R h get
    → ((h' : History) (o : Outcome OpError A) → R h' o → Holds Q IsGone h' (go_on o))
    → Holds Q IsGone h (attempt get >>= go_on)
found-IsGone Q R h get go_on reads on =
    Holds-bind Q (Inspects R) IsGone h _ _ (Holds-attempt Q R (Inspects R) _ _ reads (λ h' o k. k))
      (λ h' o k. on h' o k) (λ h' e k. tt)
