-- ===== src/Routing/Shares.antt =====
-- The exporters that the router gives for each number that it may draw.
use otel_arrow_adapter.Base.{
  ℕ, zero, suc, ◌+◌, ◌-◌, ◌<◌, ◌≤◌, ◌≡◌, refl, ap, sym, ◌∙◌, inl, inr, List, [], ◌∷◌, ◌++◌, Option,
  none, some, Result, ok, err, panic, ok_injective, bind-ok, ◌>>=◌, Str, ◌⊎◌, Bool-cases, ltb,
  ltb→lt, lt→ltb, Bool, if◌then◌else◌, ◌&&◌, get_elem?, arith, true, false,
}
use mathlib.Core.List.{append-nil, append_assoc}
use mathlib.Core.Sum.{inr-injective}
use otel_arrow_adapter.Routing.Router.{
  RoutingTableItem, ExtractError, validate_items, validate, RoutingItem, new_routes,
  extract_exporter, append_exporter, append_exporters, register_from, register_exporters,
  last_weight, search_route, get_exporters, consume_all, consume_traces, add_int,
  exporter_not_found, bad_id, wrong_type,
}

-- The sum of the weights, without wrap-around.
unfoldable pub weights : List RoutingTableItem → ℕ
weights [] = 0
weights (item ∷ items) = item.weight + weights items

abbrev pub replicate {ℓ} : {A : Type ℓ} → ℕ → A → List A
replicate zero a = []
replicate (suc n) a = a ∷ replicate n a

get_elem?-replicate {ℓ} :
    {A : Type ℓ} (n : ℕ) (a : A) (rest : List A) (i : ℕ)
    → i < n
    → get_elem? (replicate n a ++ rest) i ≡ some a
get_elem?-replicate zero a rest i lt = ground arith
get_elem?-replicate (suc n) a rest zero lt = refl
get_elem?-replicate (suc n) a rest (suc i) lt = get_elem?-replicate n a rest i (omega arith)

get_elem?-past {ℓ} :
    {A : Type ℓ} (n : ℕ) (a : A) (rest : List A) (i : ℕ)
    → n ≤ i
    → get_elem? (replicate n a ++ rest) i ≡ get_elem? rest (i - n)
get_elem?-past zero a rest i le = ap (λ k. get_elem? rest k) (omega arith)
get_elem?-past (suc n) a rest zero le = ground arith
get_elem?-past (suc n) a rest (suc i) le =
    get_elem?-past n a rest i (omega arith) ∙ ap (λ k. get_elem? rest k) (omega arith)

Sum-cases : {A B : Type 0} (r : A ⊎ B) → ((a : A) × (r ≡ inl a)) ⊎ ((b : B) × (r ≡ inr b))
Sum-cases (inl a) = inl (a, refl)
Sum-cases (inr b) = inr (b, refl)

if_both {ℓ} :
    {A : Type ℓ} (a b : Bool) (x y : A) → a ≡ true → b ≡ true → x ≡ (if a && b then x else y)
if_both a b x y e f = ground arith

if_neither {ℓ} : {A : Type ℓ} (a b : Bool) (x y : A) → a ≡ false → y ≡ (if a && b then x else y)
if_neither a b x y e = ground arith

-- A table with a positive weight and no overflow is what Validate accepts.
validate_items-weights :
    (items : List RoutingTableItem) (total n : ℕ)
    → total + weights items < 9223372036854775808
    → validate_items total items ≡ inr n
    → n ≡ total + weights items
unfolding validate_items weights
validate_items-weights [] total n small e = omega (arith, inr-injective total n e)
validate_items-weights (item ∷ items) total n small e =
    let same : add_int total item.weight ≡ total + item.weight = omega arith in
    let tail : validate_items (add_int total item.weight) items ≡ inr n = ground arith in
    let ih =
      validate_items-weights items (add_int total item.weight) n (omega (arith, same)) tail in
    omega (arith, same, ih)

validate-positive :
    (table : List RoutingTableItem)
    → weights table < 9223372036854775808
    → validate table ≡ none
    → 0 < weights table
unfolding validate
validate-positive [] small e = ground arith
validate-positive (item ∷ items) small e =
    let sum = validate_items-weights (item ∷ items) 0 in
    elim (Sum-cases (validate_items 0 (item ∷ items))) [
      | inl (other, here) ↦ ground arith
      | inr (n, here) ↦ let total = sum n (omega (arith, small)) here in ground arith
    ]

module _ {ComponentId Component E : Type 0} (unmarshal : Str → Option ComponentId)
    (available : ComponentId → Option Component) (as_exporter : Component → Option E) where
  abbrev given : Result ExtractError E → List E
  given (ok e) = e ∷ []
  given (err _) = []
  given panic = []

  -- The exporters that the names give: a name that is not available gives none.
  unfoldable pub found : List Str → List E
  unfolding extract_exporter
  found [] = []
  found (name ∷ names) =
      given (extract_exporter unmarshal available as_exporter name) ++ found names

  -- Each item's exporters, as often as its weight says.
  unfoldable pub shares : List RoutingTableItem → List (List E)
  unfolding found
  shares [] = []
  shares (item ∷ items) = replicate item.weight (found item.names) ++ shares items

  append_exporter-given :
      (r : Result ExtractError E) (es after : List E)
      → append_exporter unmarshal available as_exporter r es ≡ ok after
      → after ≡ es ++ given r
  append_exporter-given (ok x) es after e = sym (ok_injective e)
  append_exporter-given (err exporter_not_found) es after e =
      sym (ok_injective e) ∙ sym (append-nil es)
  append_exporter-given (err bad_id) es after e = ground arith
  append_exporter-given (err wrong_type) es after e = ground arith
  append_exporter-given panic es after e = ground arith

  append_exporters-found :
      (names : List Str) (es after : List E)
      → append_exporters unmarshal available as_exporter names es ≡ ok after
      → after ≡ es ++ found names
  unfolding append_exporters found
  append_exporters-found [] es after e = sym (ok_injective e) ∙ sym (append-nil es)
  append_exporters-found (name ∷ names) es after e =
      let got = extract_exporter unmarshal available as_exporter name in
      let (es', first, rest_ok) =
        bind-ok (append_exporter unmarshal available as_exporter got es)
          (λ es'. append_exporters unmarshal available as_exporter names es') after e in
      append_exporters-found names es' after rest_ok
      ∙ ap (λ xs. xs ++ found names) (append_exporter-given got es es' first)
      ∙ append_assoc es (given got) (found names)

  abbrev first_route : ℕ → RoutingTableItem → RoutingItem E
  unfolding found
  first_route total item = record { exporters = found item.names; cum_weight = total + item.weight }

  -- The routes of a table from a running total on.
  laid : ℕ → List RoutingTableItem → List (RoutingItem E)
  unfolding found
  laid total [] = []
  laid total (item ∷ items) = first_route total item ∷ laid (total + item.weight) items

  register_from-laid :
      (total : ℕ) (items : List RoutingTableItem) (routes : List (RoutingItem E))
      → total + weights items < 9223372036854775808
      → register_from unmarshal available as_exporter total items (new_routes E items) ≡ ok routes
      → routes ≡ laid total items
  unfolding register_from new_routes weights laid
  register_from-laid total [] routes small e = sym (ok_injective e)
  register_from-laid total (item ∷ items) routes small e =
      let same : add_int total item.weight ≡ total + item.weight = omega arith in
      let register = register_from unmarshal available as_exporter in
      let (es, first, rest_ok) =
        bind-ok (append_exporters unmarshal available as_exporter item.names [])
          (λ es. register (add_int total item.weight) items (new_routes E items) >>= λ rest.
            ok (record { exporters = es; cum_weight = add_int total item.weight } ∷ rest))
          routes e in
      let (rest, second, whole) =
        bind-ok (register (add_int total item.weight) items (new_routes E items))
          (λ rest. ok (record { exporters = es; cum_weight = add_int total item.weight } ∷ rest))
          routes rest_ok in
      let ih =
        register_from-laid (add_int total item.weight) items rest (omega (arith, same, small))
          second in
      let names = append_exporters-found item.names [] es first in cc

  last_weight-laid :
      (total : ℕ) (item : RoutingTableItem) (items : List RoutingTableItem)
      → last_weight (first_route total item) (laid (total + item.weight) items)
        ≡ total + weights (item ∷ items)
  unfolding laid weights
  last_weight-laid total item [] = omega arith
  last_weight-laid total item (next ∷ items) =
      omega (arith, last_weight-laid (total + item.weight) next items)

  search_route-laid :
      (total : ℕ) (item : RoutingTableItem) (items : List RoutingTableItem) (x : ℕ)
      → total + weights (item ∷ items) < 9223372036854775808
      → total ≤ x
      → x < total + weights (item ∷ items)
      → get_elem? (shares (item ∷ items)) (x - total)
        ≡ some (search_route x (first_route total item) (laid (total + item.weight) items))
  unfolding laid weights shares
  search_route-laid total item [] x small low high =
      get_elem?-replicate item.weight (found item.names) [] (x - total) (omega arith)
  search_route-laid total item (next ∷ items) x small low high =
      elim (Bool-cases (ltb x (total + item.weight))) [
        | inl before ↦
            let early : x < total + item.weight = ltb→lt x (total + item.weight) before in
            let here =
              get_elem?-replicate item.weight (found item.names) (shares (next ∷ items)) (x - total)
                (omega arith) in
            let bounded = lt→ltb (total + item.weight) 9223372036854775808 (omega arith) in
            here ∙ ap some (if_both _ _ (found item.names) _ before bounded)
        | inr after ↦
            let late : total + item.weight ≤ x = ground arith in
            let past =
              get_elem?-past item.weight (found item.names) (shares (next ∷ items)) (x - total)
                (omega arith) in
            let ih =
              search_route-laid (total + item.weight) next items x (omega arith) (omega arith)
                (omega arith) in
            past
            ∙ ap (λ i. get_elem? (shares (next ∷ items)) i) (omega arith)
            ∙ ih
            ∙ ap some (if_neither _ _ (found item.names) _ after)
      ]

  get_exporters-laid :
      (intn : ℕ → ℕ) (item : RoutingTableItem) (items : List RoutingTableItem)
      → weights (item ∷ items) < 9223372036854775808
      → 0 < weights (item ∷ items)
      → get_exporters intn (laid 0 (item ∷ items))
        ≡ some (
            search_route
              (intn (weights (item ∷ items)))
              (first_route 0 item)
              (laid (0 + item.weight) items))
  unfolding get_exporters laid
  get_exporters-laid intn item items small positive =
      let last = last_weight-laid 0 item items in
      let n = last_weight (first_route 0 item) (laid (0 + item.weight) items) in
      sym (
        if_both _ _ _ _ (lt→ltb 0 n (omega (arith, last, positive)))
          (lt→ltb n 9223372036854775808 (omega (arith, last, small))))
      ∙ ap (λ k. some (search_route (intn k) (first_route 0 item) (laid (0 + item.weight) items)))
          (omega (arith, last))

  -- The table passes Validate, its weights add up to less than 2 ^ 63, and the routes of newRouter
  -- are registered without an error. Where randIntn gives a number below the sum of the weights,
  -- ConsumeTraces does not panic: it hands the data to each of the exporters that stand at that
  -- number in the list in which each item's available exporters stand as often as its weight says.
  pub consume_traces-shares :
      {Data Err : Type 0} (consume : E → Data → Option Err)
      (append : Option Err → Option Err → Option Err) (intn : ℕ → ℕ) (table : List RoutingTableItem)
      (routes : List (RoutingItem E)) (t : Data)
      → validate table ≡ none
      → weights table < 9223372036854775808
      → register_exporters unmarshal available as_exporter table (new_routes E table) ≡ ok routes
      → intn (weights table) < weights table
      → (es : List E) × (consume_traces consume append intn routes t
          ≡ some (consume_all consume append es t none))
        × (get_elem? (shares table) (intn (weights table)) ≡ some es)
  unfolding register_exporters validate consume_traces
  consume_traces-shares consume append intn [] routes t valid small e below =
      ([], ground arith, ground arith)
  consume_traces-shares consume append intn (item ∷ items) routes t valid small e below =
      let positive = validate-positive (item ∷ items) small valid in
      let same = register_from-laid 0 (item ∷ items) routes (omega (arith, small)) e in
      let searched =
        search_route-laid 0 item items (intn (weights (item ∷ items))) (omega (arith, small))
          (omega arith) (omega (arith, below)) in
      (
        _,
        ap (λ rs. consume_traces consume append intn rs t) same
            ∙ ap
                (λ o. elim o [
                  | none ↦ none
                  | some es ↦ some (consume_all consume append es t none)
                ])
                (get_exporters-laid intn item items small positive),
        ap (λ i. get_elem? (shares (item ∷ items)) i) (omega arith) ∙ searched,
      )
