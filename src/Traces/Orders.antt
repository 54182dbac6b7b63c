-- ===== src/Traces/Orders.antt =====
-- Orders as Boolean comparisons: on numbers, on strings, one after the other, and what sort.Slice
-- (pkg/otel/traces/arrow/optimizer.go) makes of them.
use otel_arrow_adapter.Base.{
  ℕ, zero, suc, ◌<◌, some, get_elem?, Bool-cases, ◌≡◌, refl, sym, subst, Bool, true, false, List,
  [], ◌∷◌, ltb, ◌==◌, ◌&&◌, if◌then◌else◌, Str, str_eq, str_lt, str_eq→eq, str_eq_refl,
  str_lt_irrefl, arith,
}
use mathlib.Core.Option.{some-injective}
use otel_arrow_adapter.Attrs.Value.{compare_str}
use otel_arrow_adapter.Traces.Optimizer.{is_same, is_below}

-- A linear order up to an equality.
pub record IsLinear {A : Type 0} (eq lt : A → A → Bool) : Type 0 where
  pub reflexive : (a : A) → eq a a ≡ true
  pub symmetric : (a b : A) → eq a b ≡ true → eq b a ≡ true
  pub eq_trans : (a b c : A) → eq a b ≡ true → eq b c ≡ true → eq a c ≡ true
  pub irreflexive : (a b : A) → eq a b ≡ true → lt a b ≡ false
  pub total : (a b : A) → eq a b ≡ false → lt a b ≡ false → lt b a ≡ true
  pub transitive : (a b c : A) → lt a b ≡ true → lt b c ≡ true → lt a c ≡ true
  pub left : (a b c : A) → eq a b ≡ true → lt b c ≡ true → lt a c ≡ true
  pub right : (a b c : A) → lt a b ≡ true → eq b c ≡ true → lt a c ≡ true

pub ltb-IsLinear : IsLinear ◌==◌ ltb
ltb-IsLinear = record {
  reflexive = λ a. ground arith;
  symmetric = λ a b e. ground arith;
  eq_trans = λ a b c e f. ground arith;
  irreflexive = λ a b e. ground arith;
  total = λ a b e f. ground arith;
  transitive = λ a b c e f. ground arith;
  left = λ a b c e f. ground arith;
  right = λ a b c e f. ground arith;
}

pub str_lt-total : (a b : Str) → str_eq a b ≡ false → str_lt a b ≡ false → str_lt b a ≡ true
unfolding str_eq str_lt
str_lt-total [] [] e f = ground arith
str_lt-total [] (y ∷ ys) e f = ground arith
str_lt-total (x ∷ xs) [] e f = refl
str_lt-total (x ∷ xs) (y ∷ ys) e f = ground (arith, str_lt-total xs ys)

str_lt_trans : (a b c : Str) → str_lt a b ≡ true → str_lt b c ≡ true → str_lt a c ≡ true
unfolding str_lt
str_lt_trans [] [] c e f = ground arith
str_lt_trans [] (y ∷ ys) [] e f = ground arith
str_lt_trans [] (y ∷ ys) (z ∷ zs) e f = refl
str_lt_trans (x ∷ xs) [] c e f = ground arith
str_lt_trans (x ∷ xs) (y ∷ ys) [] e f = ground arith
str_lt_trans (x ∷ xs) (y ∷ ys) (z ∷ zs) e f = ground (arith, str_lt_trans xs ys zs)

pub str_lt-IsLinear : IsLinear str_eq str_lt
str_lt-IsLinear = record {
  reflexive = str_eq_refl;
  symmetric = λ a b e. subst (λ c. str_eq c a ≡ true) (str_eq→eq a b e) (str_eq_refl a);
  eq_trans = λ a b c e f. subst (λ d. str_eq a d ≡ true) (str_eq→eq b c f) e;
  irreflexive = str_lt_irrefl;
  total = str_lt-total;
  transitive = str_lt_trans;
  left = λ a b c e f. subst (λ d. str_lt d c ≡ true) (sym (str_eq→eq a b e)) f;
  right = λ a b c e f. subst (λ d. str_lt a d ≡ true) (str_eq→eq b c f) e;
}

pub on-IsLinear :
    {A B : Type 0} (f : B → A) {eq lt : A → A → Bool}
    → IsLinear eq lt
    → IsLinear (λ a b. eq (f a) (f b)) (λ a b. lt (f a) (f b))
on-IsLinear f l = record {
  reflexive = λ a. l.reflexive (f a);
  symmetric = λ a b. l.symmetric (f a) (f b);
  eq_trans = λ a b c. l.eq_trans (f a) (f b) (f c);
  irreflexive = λ a b. l.irreflexive (f a) (f b);
  total = λ a b. l.total (f a) (f b);
  transitive = λ a b c. l.transitive (f a) (f b) (f c);
  left = λ a b c. l.left (f a) (f b) (f c);
  right = λ a b c. l.right (f a) (f b) (f c);
}

-- By the first order, and by the second one where the first sees no difference.
pub then-IsLinear :
    {A : Type 0} {eq lt eq' lt' : A → A → Bool}
    → IsLinear eq lt
    → IsLinear eq' lt'
    → IsLinear (λ a b. eq a b && eq' a b) (λ a b. if eq a b then lt' a b else lt a b)
then-IsLinear l m = record {
  reflexive = λ a. ground (arith, l.reflexive a, m.reflexive a);
  symmetric = λ a b e. ground (arith, l.symmetric a b, m.symmetric a b);
  eq_trans = λ a b c e f. ground (arith, l.eq_trans a b c, m.eq_trans a b c);
  irreflexive = λ a b e. ground (arith, m.irreflexive a b);
  total = λ a b e f. ground (arith, l.total a b, m.total a b, l.symmetric a b, l.symmetric b a);
  transitive = λ a b c e f. ground (
    arith,
    l.transitive a b c,
    m.transitive a b c,
    l.eq_trans a b c,
    l.left a b c,
    l.right a b c,
    l.irreflexive a c,
  );
  left = λ a b c e f.
      ground
        (arith, l.left a b c, m.left a b c, l.eq_trans a b c, l.symmetric a b, l.eq_trans b a c);
  right = λ a b c e f.
      ground
        (arith, l.right a b c, m.right a b c, l.eq_trans a b c, l.symmetric b c, l.eq_trans a c b);
}

is_same-compare_str : (a b : Str) → is_same (compare_str a b) ≡ str_eq a b
unfolding compare_str
is_same-compare_str a b = ground arith

is_below-compare_str : (a b : Str) → is_below (compare_str a b) ≡ str_lt a b
unfolding compare_str
is_below-compare_str a b = ground (arith, str_lt_irrefl a b)

pub trace-IsLinear : IsLinear (λ a b. is_same (compare_str a b)) (λ a b. is_below (compare_str a b))
trace-IsLinear =
    subst (λ f. IsLinear f (λ a b. is_below (compare_str a b)))
      (λ i a b. sym (is_same-compare_str a b) i)
      (subst (λ f. IsLinear str_eq f) (λ i a b. sym (is_below-compare_str a b) i) str_lt-IsLinear)

-- What sort.Slice asks of its comparison.
pub record IsStrictWeakOrder {A : Type 0} (lt : A → A → Bool) : Type 0 where
  pub irreflexive : (a : A) → lt a a ≡ false
  pub transitive : (a b c : A) → lt a b ≡ true → lt b c ≡ true → lt a c ≡ true
  pub incomparable :
      (a b c : A)
      → lt a b ≡ false
      → lt b a ≡ false
      → lt b c ≡ false
      → lt c b ≡ false
      → (lt a c ≡ false) × (lt c a ≡ false)

pub IsLinear-IsStrictWeakOrder :
    {A : Type 0} {eq lt : A → A → Bool} → IsLinear eq lt → IsStrictWeakOrder lt
IsLinear-IsStrictWeakOrder l = record {
  irreflexive = λ a. l.irreflexive a a (l.reflexive a);
  transitive = l.transitive;
  incomparable = λ a b c e f g h. ground (
    arith,
    l.total a b,
    l.total b c,
    l.eq_trans a b c,
    l.symmetric a c,
    l.irreflexive a c,
    l.irreflexive c a,
  );
}

-- No element is below the one before it, as sort.Slice leaves a slice.
pub data Sorted {A : Type 0} (lt : A → A → Bool) : List A → Type 0 where
  sorted_nil : Sorted lt []
  sorted_one : (a : A) → Sorted lt (a ∷ [])
  sorted_cons :
      (a b : A) (xs : List A) → lt b a ≡ false → Sorted lt (b ∷ xs) → Sorted lt (a ∷ b ∷ xs)

module _ {A : Type 0} {lt : A → A → Bool} (order : IsStrictWeakOrder lt) where
  not_less_trans : (a b c : A) → lt b a ≡ false → lt c b ≡ false → lt c a ≡ false
  not_less_trans a b c e f = ground (
    arith,
    order.transitive b c a,
    order.transitive c a b,
    order.incomparable c b a,
    Bool-cases (lt c a),
  )

  Sorted-first :
      (x : A) (xs : List A)
      → Sorted lt (x ∷ xs)
      → (j : ℕ) (b : A) → get_elem? (x ∷ xs) j ≡ some b
      → lt b x ≡ false
  Sorted-first x xs s zero b e =
      subst (λ c. lt c x ≡ false) (some-injective _ _ e) (order.irreflexive x)
  Sorted-first x _ (sorted_one _) (suc j) b e = ground arith
  Sorted-first x _ (sorted_cons _ y ys h s) (suc j) b e =
      not_less_trans x y b h (Sorted-first y ys s j b e)

  pub Sorted-get_elem? :
      (xs : List A)
      → Sorted lt xs
      → (i j : ℕ) (a b : A) → i < j
      → get_elem? xs i ≡ some a
      → get_elem? xs j ≡ some b
      → lt b a ≡ false
  Sorted-get_elem? [] s i j a b h e f = ground arith
  Sorted-get_elem? (x ∷ xs) s zero j a b h e f =
      subst (λ c. lt b c ≡ false) (some-injective _ _ e) (Sorted-first x xs s j b f)
  Sorted-get_elem? (x ∷ xs) s (suc i) zero a b h e f = ground arith
  Sorted-get_elem? (x ∷ _) (sorted_one _) (suc i) (suc j) a b h e f = ground arith
  Sorted-get_elem? (x ∷ _) (sorted_cons _ y ys _ s) (suc i) (suc j) a b h e f =
      Sorted-get_elem? (y ∷ ys) s i j a b (omega arith) e f
