-- ===== src/KernelList/Chain.antt =====
-- A list is the sequence of its elements, linked in both directions from its head round to it.
use generic_asynchronous_io.Prelude.{ℕ, ◌≡◌, ◌≢◌, List, [], ◌∷◌, ◌++◌, sym, ◌∙◌}
use generic_asynchronous_io.KernelList.{Heap, null}

abbrev pub Absent : ℕ → List ℕ → Type 0
Absent x [] = Unit {0}
Absent x (y ∷ ys) = (x ≢ y) × Absent x ys

abbrev pub Distinct : List ℕ → Type 0
Distinct [] = Unit {0}
Distinct (x ∷ xs) = Absent x xs × Distinct xs

-- The links from node `a` through the elements to node `b`, in both directions.
abbrev pub Links : Heap → ℕ → ℕ → List ℕ → ℕ → Type 0
Links h l a [] b = ((h a).next ≡ b) × ((h b).prev ≡ a)
Links h l a (x ∷ xs) b = ((h a).next ≡ x) × ((h x).prev ≡ a) × ((h x).list ≡ l) × Links h l x xs b

pub record IsList (h : Heap) (l : ℕ) (xs : List ℕ) : Type 0 where
  pub real : Distinct (null ∷ l ∷ xs)
  pub own : (h l).list ≡ l
  pub links : Links h l l xs l

-- The node before `b` is the first or one of the others.
pub before :
    (h : Heap) (l a b : ℕ) (xs : List ℕ) (y : ℕ)
    → Links h l a xs b
    → y ≢ a
    → Absent y xs
    → y ≢ (h b).prev
before h l a b [] y k na ab = λ e. na (e ∙ k.1)
before h l a b (x ∷ xs) y k na ab = before h l x b xs y k.3 ab.0 ab.1

pub Absent-append : (x : ℕ) (xs ys : List ℕ) → Absent x xs → Absent x ys → Absent x (xs ++ ys)
Absent-append x [] ys a b = b
Absent-append x (y ∷ xs) ys a b = (a.0, Absent-append x xs ys a.1 b)

pub Absent-parts :
    (x e : ℕ) (xs ys : List ℕ) → Absent x (xs ++ e ∷ ys) → Absent x xs × (x ≢ e) × Absent x ys
Absent-parts x e [] ys a = (tt, a.0, a.1)
Absent-parts x e (y ∷ xs) ys a =
    let parts = Absent-parts x e xs ys a.1 in ((a.0, parts.0), parts.1, parts.2)

pub Distinct-snoc : (e : ℕ) (xs : List ℕ) → Distinct xs → Absent e xs → Distinct (xs ++ e ∷ [])
Distinct-snoc e [] d a = (tt, tt)
Distinct-snoc e (x ∷ xs) d a =
    (Absent-append x xs (e ∷ []) d.0 ((λ q. a.0 (sym q)), tt), Distinct-snoc e xs d.1 a.1)

-- The element stands apart from both sides, and the rest stays distinct.
pub Distinct-parts :
    (e : ℕ) (xs ys : List ℕ)
    → Distinct (xs ++ e ∷ ys)
    → Absent e xs × Absent e ys × Distinct (xs ++ ys)
Distinct-parts e [] ys d = (tt, d.0, d.1)
Distinct-parts e (x ∷ xs) ys d =
    let rest = Distinct-parts e xs ys d.1 in
    let parts = Absent-parts x e xs ys d.0 in
    (((λ q. parts.1 (sym q)), rest.0), rest.1, (Absent-append x xs ys parts.0 parts.2, rest.2))
