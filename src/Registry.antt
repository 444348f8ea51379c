-- ===== src/Registry.antt =====
-- What the table of strings stands for: the list of the strings that have been announced, the n-th
-- string under the number n.
use kieker_lang_pack_c.Common.{
  ℕ, zero, suc, ◌+◌, ◌<◌, Option, none, some, List, [], ◌∷◌, ◌++◌, length, length-append, get_elem?,
  if◌then◌else◌, ◌≡◌, refl, arith, append-nil, Bool-cases, Option-cases, inl, inr,
}
use kieker_lang_pack_c.Word.{CString, str_eq}
use kieker_lang_pack_c.Word.Bytes.{str_eq_iff}

abbrev pub Registry : Type 0
Registry = List CString

-- The number of the first `string` in the registry, counted from `i`.
unfoldable pub index_from : ℕ → Registry → CString → Option ℕ
index_from i [] string = none
index_from i (value ∷ reg) string =
    if str_eq value string then some i else index_from (suc i) reg string

abbrev pub known_or_next : Option ℕ → ℕ → ℕ
known_or_next none n = n
known_or_next (some i) n = i

abbrev pub extended : Option ℕ → Registry → CString → Registry
extended none reg string = reg ++ string ∷ []
extended (some i) reg string = reg

-- The number under which `string` is announced, and the registry after that.
unfoldable pub number_of : Registry → CString → ℕ
unfolding index_from
number_of reg string = known_or_next (index_from 0 reg string) (length reg)

unfoldable pub register : Registry → CString → Registry
unfolding index_from
register reg string = extended (index_from 0 reg string) reg string

index_from-get :
    (i n : ℕ) (reg : Registry) (string : CString)
    → index_from i reg string ≡ some n
    → (k : ℕ) × (n ≡ i + k) × (get_elem? reg k ≡ some string) × (k < length reg)
unfolding index_from
index_from-get i n [] string e = cc
index_from-get i n (value ∷ reg) string e = elim (Bool-cases (str_eq value string)) [
  | inl same ↦ (0, ground arith, ground (arith, (str_eq_iff value string).0 same), omega arith)
  | inr other ↦
      let (k, e', got, below) = index_from-get (suc i) n reg string (rw other at e) in
      (suc k, omega arith, got, omega arith)
]

get_elem?-append :
    (xs ys : Registry) (k : ℕ) → k < length xs → get_elem? (xs ++ ys) k ≡ get_elem? xs k
get_elem?-append [] ys k h = absurd (omega arith)
get_elem?-append (x ∷ xs) ys zero h = refl
get_elem?-append (x ∷ xs) ys (suc k) h = get_elem?-append xs ys k (omega arith)

get_elem?-append_end : (xs : Registry) (y : CString) → get_elem? (xs ++ y ∷ []) (length xs) ≡ some y
get_elem?-append_end [] y = refl
get_elem?-append_end (x ∷ xs) y = get_elem?-append_end xs y

-- A string stands in the registry under its number once it is registered.
pub register-number_of :
    (reg : Registry) (string : CString)
    → get_elem? (register reg string) (number_of reg string) ≡ some string
unfolding register number_of
register-number_of reg string = elim (Option-cases (index_from 0 reg string)) [
  | inl new ↦ rw new (get_elem?-append_end reg string)
  | inr (n, known) ↦
      let (k, e, got, below) = index_from-get 0 n reg string known in
      let at : n ≡ k = omega arith in rw known (rw at got)
]

-- Registering adds at the end only.
pub register-extends :
    (reg : Registry) (string : CString) → (more : Registry) × (register reg string ≡ reg ++ more)
unfolding register
register-extends reg string = elim (Option-cases (index_from 0 reg string)) [
  | inl new ↦ (string ∷ [], rw new)
  | inr (n, known) ↦ ([], rw (known, append-nil))
]

pub number_of-lt :
    (reg : Registry) (string : CString) → number_of reg string < length (register reg string)
unfolding register number_of
number_of-lt reg string = elim (Option-cases (index_from 0 reg string)) [
  | inl new ↦ rw new (omega (arith, length-append reg (string ∷ [])))
  | inr (n, known) ↦
      let (k, e, got, below) = index_from-get 0 n reg string known in rw known (omega arith)
]

-- What is in the registry keeps its number when the registry grows.
pub get_elem?-grows :
    (reg more : Registry) (k : ℕ) (string : CString)
    → get_elem? reg k ≡ some string
    → get_elem? (reg ++ more) k ≡ some string
get_elem?-grows [] more k string e = cc
get_elem?-grows (x ∷ reg) more zero string e = e
get_elem?-grows (x ∷ reg) more (suc k) string e = get_elem?-grows reg more k string e
