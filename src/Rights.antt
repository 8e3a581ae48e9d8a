-- ===== src/Rights.antt =====
-- internal/secdesc/rights.go: the names of access rights and the mask that they stand for.
use go_adldap.Base.{
  ℕ, Bool, not, ◌&&◌, Option, none, some, List, [], ◌∷◌, bit_and, bit_or, ◌==◌, if◌then◌else◌,
}
use go_adldap.Base.Bytes.{Bytes}
use go_adldap.Base.Text.{trim_left, trim_right, to_lower, same_text, codes}
use Prim.Native.Nat.{bit_xor}

-- The table, by value ascending.
abbrev pub rights_table : List (ℕ × Bytes)
rights_table =
    (0x00000001, codes "CreateChild")
    ∷ (0x00000002, codes "DeleteChild")
    ∷ (0x00000004, codes "ListChildren")
    ∷ (0x00000008, codes "Self")
    ∷ (0x00000010, codes "ReadProperty")
    ∷ (0x00000020, codes "WriteProperty")
    ∷ (0x00000040, codes "DeleteTree")
    ∷ (0x00000080, codes "ListObject")
    ∷ (0x00000100, codes "ExtendedRight")
    ∷ (0x00010000, codes "Delete")
    ∷ (0x00020000, codes "ReadControl")
    ∷ (0x00020004, codes "GenericExecute")
    ∷ (0x00020028, codes "GenericWrite")
    ∷ (0x00020094, codes "GenericRead")
    ∷ (0x00040000, codes "WriteDacl")
    ∷ (0x00080000, codes "WriteOwner")
    ∷ (0x000F01FF, codes "GenericAll")
    ∷ (0x00100000, codes "Synchronize")
    ∷ (0x01000000, codes "AccessSystemSecurity")
    ∷ []

-- The bit of the name that the inner loop finds first.
unfoldable pub find_right : List (ℕ × Bytes) → Bytes → Option ℕ
find_right [] key = none
find_right ((bit, name) ∷ table) key =
    if same_text (to_lower name) key then some bit else find_right table key

abbrev pub name_key : Bytes → Bytes
name_key n = to_lower (trim_right (trim_left n))

-- The outer loop, from the mask so far; an unknown name is an error.
unfoldable pub mask_from : ℕ → List Bytes → Option ℕ
mask_from mask [] = some mask
mask_from mask (n ∷ names) = elim (find_right rights_table (name_key n)) [
  | none ↦ none
  | some bit ↦ mask_from (bit_or mask bit) names
]

unfoldable pub rights_mask : List Bytes → Option ℕ
rights_mask names = mask_from 0 names

-- `a &^ b`
abbrev pub and_not : ℕ → ℕ → ℕ
and_not a b = bit_xor a (bit_and a b)

abbrev takes : ℕ → ℕ → Bool
takes bit remaining = not (bit == 0) && (bit_and remaining bit == bit)

-- The two loops: the walk from the end of the table down, which leaves the bits that are still
-- present, and the names that it took in ascending order.
unfoldable pub walk : List (ℕ × Bytes) → ℕ → List Bytes × ℕ
walk [] remaining = ([], remaining)
walk ((bit, name) ∷ table) remaining =
    let (names, rest) = walk table remaining in
    if takes bit rest then (name ∷ names, and_not rest bit) else (names, rest)

unfoldable pub rights_names : ℕ → List Bytes
rights_names mask = (walk rights_table mask).0
