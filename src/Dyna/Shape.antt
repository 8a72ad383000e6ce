-- ===== src/Dyna/Shape.antt =====
-- What it means that a handle and its cells stand for a list, how the pieces of a linked list
-- change under a write, and the rule for commands that return.
use web_tester.Prelude.{
  ℕ, ◌≡◌, refl, ◌≢◌, Bool, true, false, ◌||◌, Option, some, ap, ◌∙◌, inl, inr, Bool-cases, List, [],
  ◌∷◌, ◌++◌, arith, ◌==◌, pos, length,
}
use web_tester.Dyna.Memory.{Cell, null, Cells, Memory, Run, ok, Cmd, and_then, write}
use web_tester.Dyna.Ops.{Handle}

-- A command that neither faults nor runs out of rounds, with a postcondition.
pub data Returns {A : Type 0} (P : A → Memory → Type 0) : Run A → Type 0 where
  returns : {a : A} {m : Memory} → P a m → Returns P (ok a m)

module _ {A B : Type 0} {P : A → Memory → Type 0} {Q : B → Memory → Type 0} where
  pub Returns-bind :
      {r : Run A} {k : A → Cmd B}
      → Returns P r
      → ((a : A) (m : Memory) → P a m → Returns Q (k a m))
      → Returns Q (and_then r k)
  Returns-bind (returns p) rest = rest _ _ p

module _ {A : Type 0} {P Q : A → Memory → Type 0} where
  pub Returns-mono :
      {r : Run A} → Returns P r → ((a : A) (m : Memory) → P a m → Q a m) → Returns Q r
  Returns-mono (returns p) weaken = returns (weaken _ _ p)

-- An item of the list: its address, its data and its tag.
pub record Node : Type 0 where
  pub at : ℕ
  pub item : ℕ
  pub tag : ℕ

abbrev pub first : List Node → ℕ → ℕ
first [] q = q
first (x ∷ xs) q = x.at

abbrev pub last : ℕ → List Node → ℕ
last p [] = p
last p (x ∷ xs) = last x.at xs

abbrev pub has : ℕ → List Node → Bool
has a [] = false
has a (x ∷ xs) = (a == x.at) || has a xs

abbrev pub Distinct : List Node → Type 0
Distinct [] = Unit
Distinct (x ∷ xs) = (x.at ≢ null) × (has x.at xs ≡ false) × Distinct xs

abbrev pub cell : ℕ → Node → ℕ → Cell
cell p x q = record { item = x.item; tag = x.tag; next_ptr = q; prev_ptr = p }

-- The cells hold `xs` between `p` and `q`, linked in both directions.
abbrev pub Linked : Cells → ℕ → List Node → ℕ → Type 0
Linked f p [] q = Unit
Linked f p (x ∷ xs) q = (f x.at ≡ some (cell p x (first xs q))) × Linked f x.at xs q

-- The handle `s` stands for the list `xs`.
pub record IsDyna (f : Cells) (s : Handle) (xs : List Node) : Type 0 where
  pub head : s.head ≡ first xs null
  pub tail : s.tail ≡ last null xs
  pub count : s.count ≡ pos (length xs)
  pub distinct : Distinct xs
  pub linked : Linked f null xs null

-- `g` and `f` differ at most at the addresses of `xs`.
abbrev pub SameOutside : List Node → Cells → Cells → Type 0
SameOutside xs f g = (a : ℕ) → has a xs ≡ false → g a ≡ f a

-- `g` and `f` agree at the addresses of `xs`.
abbrev pub SameOn : List Node → Cells → Cells → Type 0
SameOn xs f g = (a : ℕ) → has a xs ≡ true → g a ≡ f a

pub has-append : (a : ℕ) (xs ys : List Node) → has a (xs ++ ys) ≡ (has a xs || has a ys)
has-append a [] ys = refl
has-append a (x ∷ xs) ys = ground (arith, has-append a xs ys)

pub not-has-append :
    (a : ℕ) (xs ys : List Node) → has a (xs ++ ys) ≡ false → (has a xs ≡ false) × (has a ys ≡ false)
not-has-append a xs ys o = ground (arith, has-append a xs ys)

pub first-append : (xs ys : List Node) (q : ℕ) → first (xs ++ ys) q ≡ first xs (first ys q)
first-append [] ys q = refl
first-append (x ∷ xs) ys q = refl

pub last-append : (p : ℕ) (xs ys : List Node) → last p (xs ++ ys) ≡ last (last p xs) ys
last-append p [] ys = refl
last-append p (x ∷ xs) ys = last-append x.at xs ys

-- The last of a list that is not empty is one of its addresses.
pub has-last : (x : Node) (xs : List Node) → has (last x.at xs) (x ∷ xs) ≡ true
has-last x [] = ground arith
has-last x (y ∷ ys) = ground (arith, has-last y ys)

pub last-ne_null : (x : Node) (xs : List Node) → Distinct (x ∷ xs) → (last x.at xs == null) ≡ false
last-ne_null x [] d = ground arith
last-ne_null x (y ∷ ys) d = last-ne_null y ys d.2

pub Linked-frame :
    (f g : Cells) (p : ℕ) (xs : List Node) (q : ℕ)
    → SameOn xs f g
    → Linked f p xs q
    → Linked g p xs q
Linked-frame f g p [] q same l = tt
Linked-frame f g p (x ∷ xs) q same l =
    (ground (arith, same x.at), Linked-frame f g x.at xs q (λ a i. same a (ground arith)) l.1)

-- A list of two parts is two linked parts.
pub Linked-split :
    (f : Cells) (p : ℕ) (xs ys : List Node) (q : ℕ)
    → Linked f p (xs ++ ys) q
    → Linked f p xs (first ys q) × Linked f (last p xs) ys q
Linked-split f p [] ys q l = (tt, l)
Linked-split f p (x ∷ xs) ys q l =
    let rest = Linked-split f x.at xs ys q l.1 in
    ((ground (arith, first-append xs ys q), rest.0), rest.1)

pub Linked-join :
    (f : Cells) (p : ℕ) (xs ys : List Node) (q : ℕ)
    → Linked f p xs (first ys q)
    → Linked f (last p xs) ys q
    → Linked f p (xs ++ ys) q
Linked-join f p [] ys q l r = r
Linked-join f p (x ∷ xs) ys q l r =
    (ground (arith, first-append xs ys q), Linked-join f x.at xs ys q l.1 r)

-- Parts of a list with distinct addresses.
pub Distinct-left : (xs ys : List Node) → Distinct (xs ++ ys) → Distinct xs
Distinct-left [] ys d = tt
Distinct-left (x ∷ xs) ys d = (d.0, ground (arith, has-append x.at xs ys), Distinct-left xs ys d.2)

pub Distinct-right : (xs ys : List Node) → Distinct (xs ++ ys) → Distinct ys
Distinct-right [] ys d = d
Distinct-right (x ∷ xs) ys d = Distinct-right xs ys d.2

pub Distinct-apart :
    (xs ys : List Node) → Distinct (xs ++ ys) → (a : ℕ) → has a xs ≡ true → has a ys ≡ false
Distinct-apart [] ys d a i = cc
Distinct-apart (x ∷ xs) ys d a i = ground (arith, has-append x.at xs ys, Distinct-apart xs ys d.2 a)

pub Distinct-join :
    (xs ys : List Node)
    → Distinct xs
    → Distinct ys
    → ((a : ℕ) → has a xs ≡ true → has a ys ≡ false)
    → Distinct (xs ++ ys)
Distinct-join [] ys d e apart = e
Distinct-join (x ∷ xs) ys d e apart = (
  d.0,
  ground (arith, has-append x.at xs ys, apart x.at),
  Distinct-join xs ys d.2 e (λ a i. apart a (ground arith)),
)

pub not-has-cons :
    (a : ℕ) (x : Node) (xs : List Node)
    → has a (x ∷ xs) ≡ false
    → ((a == x.at) ≡ false) × (has a xs ≡ false)
not-has-cons a x xs o = ground arith

pub ==_refl : (a : ℕ) → (a == a) ≡ true
==_refl a = ground arith

pub ==_swap : (a b : ℕ) → (a == b) ≡ false → (b == a) ≡ false
==_swap a b e = ground arith

-- Null is no address of a list.
pub has-null : (xs : List Node) → Distinct xs → has null xs ≡ false
has-null [] d = refl
has-null (x ∷ xs) d = ground (arith, has-null xs d.2)

pub write_ne :
    (f : Cells) (p : ℕ) (c : Option Cell) (a : ℕ) → (a == p) ≡ false → write f p c a ≡ f a
unfolding write
write_ne f p c a e = rw e

pub write_self : (f : Cells) (p : ℕ) (c : Option Cell) → write f p c p ≡ c
unfolding write
write_self f p c = ground arith

-- An address outside a list is none of the list's.
pub ne_of_has : (a b : ℕ) (xs : List Node) → has b xs ≡ true → has a xs ≡ false → (a == b) ≡ false
ne_of_has a b xs i o = elim (Bool-cases (a == b)) [
  | inl e ↦ let same : a ≡ b = ground arith in cc (ap (λ (k : ℕ). has k xs) same)
  | inr e ↦ e
]

-- A write outside a list leaves it linked.
pub Linked-write :
    (f : Cells) (p : ℕ) (xs : List Node) (q a : ℕ) (c : Option Cell)
    → has a xs ≡ false
    → Linked f p xs q
    → Linked (write f a c) p xs q
Linked-write f p xs q a c out =
    Linked-frame f (write f a c) p xs q (λ b i. write_ne f a c b (ne_of_mem b i))
  where
    ne_of_mem : (b : ℕ) → has b xs ≡ true → (b == a) ≡ false
    ne_of_mem b i = ground (arith, ne_of_has a b xs i out)

-- Writing the `next_ptr` of the last item, which is not null.
pub Linked-relink :
    (f : Cells) (p : ℕ) (x : Node) (xs : List Node) (q q' : ℕ)
    → Distinct (x ∷ xs)
    → Linked f p (x ∷ xs) q
    → (c : Cell) × (f (last x.at xs) ≡ some c)
      × (last x.at xs ≢ null)
      × Linked (write f (last x.at xs) (some (record c { next_ptr = q' }))) p (x ∷ xs) q'
Linked-relink f p x [] q q' d l = (cell p x q, l.0, d.0, (write_self f x.at _, tt))
Linked-relink f p x (y ∷ ys) q q' d l =
    let rest = Linked-relink f x.at y ys q q' d.2 l.1 in
    let ne = ne_of_has x.at (last y.at ys) (y ∷ ys) (has-last y ys) d.1 in
    (rest.0, rest.1, rest.2, (write_ne f _ _ x.at ne ∙ l.0, rest.3))

-- Writing the `prev_ptr` of the first item.
pub Linked-repoint :
    (f : Cells) (p p' : ℕ) (y : Node) (ys : List Node) (q : ℕ)
    → Distinct (y ∷ ys)
    → Linked f p (y ∷ ys) q
    → Linked (write f y.at (some (cell p' y (first ys q)))) p' (y ∷ ys) q
Linked-repoint f p p' y ys q d l = (write_self f y.at _, Linked-write f y.at ys q y.at _ d.1 l.1)
