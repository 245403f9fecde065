-- ===== src/RecvNode/Chosen.antt =====
-- Which links RecvNode::forEachLink (GameConn/RecvNode.h) goes through.
use mathlib.Core.Path.{subst}
use anger.Common.{
  ℕ, ◌≡◌, ◌≢◌, refl, sym, ◌∙◌, inl, inr, Bool, true, false, not, ◌&&◌, ◌||◌, ◌⊎◌, List, [], ◌∷◌,
  Option, none, some, arith, Bool-cases, Option-cases,
}
use anger.Common.OrderedMap.{find}
use anger.EndPoint.{EndPoint}
use anger.Link.Receive.{contains}
use anger.RecvNode.{LinkObject, RecvNode, same_end_point, look_up}
use anger.RecvNode.Send.{all_but, leave_out, chosen}

-- The addresses of a list are different.
unfoldable pub AreDistinct : List ℕ → Type 0
AreDistinct [] = Unit {0}
AreDistinct (p ∷ ps) = (contains p ps ≡ false) × AreDistinct ps

-- A link that a call means: any, if no endpoint is given; else that of the endpoint, or any other.
abbrev pub is_meant : Option EndPoint → Bool → Option LinkObject → Bool
is_meant specific exclude none = false
is_meant none exclude (some o) = true
is_meant (some e) true (some o) = not (same_end_point o.end_point e)
is_meant (some e) false (some o) = same_end_point o.end_point e

-- An address of an open link that the call means.
abbrev pub is_target : Option EndPoint → Bool → RecvNode → ℕ → Bool
is_target specific exclude n q =
    contains q n.open_links_list && is_meant specific exclude (find q n.objects)

-- The list and the map of a node have the same links: each on the list once, with an object, and in
-- the map under its endpoint.
pub record IsTable (n : RecvNode) : Type 0 where
  pub distinct : AreDistinct n.open_links_list
  pub has_objects : (p : ℕ) → contains p n.open_links_list ≡ true → find p n.objects ≢ none
  pub on_list :
      (e : EndPoint) (p : ℕ)
      → look_up e n.open_links_map ≡ some p
      → (contains p n.open_links_list ≡ true)
        × (o : LinkObject) × (find p n.objects ≡ some o)
        × (same_end_point o.end_point e ≡ true)
  pub in_map :
      (p : ℕ) (o : LinkObject)
      → contains p n.open_links_list ≡ true
      → find p n.objects ≡ some o
      → look_up o.end_point n.open_links_map ≡ some p

-- What a choice of addresses is.
pub record IsChoice (t : ℕ → Bool) (choice : Option (List ℕ)) : Type 0 where
  pub addresses : List ℕ
  pub is_some : choice ≡ some addresses
  pub are_distinct : AreDistinct addresses
  pub members : (q : ℕ) → contains q addresses ≡ t q

same_end_point_sound : (a b : EndPoint) → same_end_point a b ≡ true → a ≡ b
unfolding same_end_point
same_end_point_sound a b h = ground arith

IsChoice-all :
    (n : RecvNode) (exclude : Bool)
    → IsTable n
    → IsChoice (is_target none exclude n) (some n.open_links_list)
IsChoice-all n exclude t = record {
  addresses = n.open_links_list;
  is_some = refl;
  are_distinct = t.distinct;
  members = λ q. member q (Bool-cases (contains q n.open_links_list));
}
  where
    member :
        (q : ℕ)
        → (contains q n.open_links_list ≡ true) ⊎ (contains q n.open_links_list ≡ false)
        → contains q n.open_links_list ≡ is_target none exclude n q
    member q (inr out) = rw out refl
    member q (inl there) = elim (Option-cases (find q n.objects)) [
      | inl missing ↦ absurd (t.has_objects q there missing)
      | inr (o, e) ↦ rw (there, e) refl
    ]

module _ (e : EndPoint) (n : RecvNode) where
  IsChoice-cons :
      (p : ℕ) (ps : List ℕ) (o : LinkObject)
      → contains p ps ≡ false
      → find p n.objects ≡ some o
      → IsChoice (λ q. contains q ps && is_meant (some e) true (find q n.objects)) (all_but e ps n)
      → IsChoice
          (λ q. contains q (p ∷ ps) && is_meant (some e) true (find q n.objects))
          (all_but e (p ∷ ps) n)
  unfolding all_but leave_out contains AreDistinct
  IsChoice-cons p ps o fresh there c = elim (Bool-cases (same_end_point o.end_point e)) [
    | inl same ↦ record {
      addresses = c.addresses;
      is_some = rw (there, c.is_some, same, all_but, leave_out) refl;
      are_distinct = c.are_distinct;
      members = λ q. ground (arith, c.members q);
    }
    | inr other ↦ record {
      addresses = p ∷ c.addresses;
      is_some = rw (there, c.is_some, other, all_but, leave_out) refl;
      are_distinct = (c.members p ∙ rw fresh refl, c.are_distinct);
      members = λ q. ground (arith, c.members q);
    }
  ]

  IsChoice-all_but :
      (ps : List ℕ)
      → AreDistinct ps
      → ((p : ℕ) → contains p ps ≡ true → find p n.objects ≢ none)
      → IsChoice (λ q. contains q ps && is_meant (some e) true (find q n.objects)) (all_but e ps n)
  unfolding all_but contains AreDistinct
  IsChoice-all_but [] d h = record {
    addresses = [];
    is_some = refl;
    are_distinct = tt;
    members = λ q. refl;
  }
  IsChoice-all_but (p ∷ ps) (fresh, d) h = elim (Option-cases (find p n.objects)) [
    | inl missing ↦ absurd (h p (ground arith) missing)
    | inr (o, there) ↦
        IsChoice-cons p ps o fresh there (IsChoice-all_but ps d (λ q c. h q (ground arith)))
  ]

  -- The link of an endpoint, if there is one.
  target_found :
      (q : ℕ)
      → IsTable n
      → is_target (some e) false n q ≡ true
      → look_up e n.open_links_map ≡ some q
  target_found q t h = elim (Bool-cases (contains q n.open_links_list)) [
    | inr out ↦ cc (h, outside out)
    | inl there ↦ elim (Option-cases (find q n.objects)) [
      | inl missing ↦ absurd (t.has_objects q there missing)
      | inr (o, f) ↦
          subst (λ k. look_up k n.open_links_map ≡ some q)
            (same_end_point_sound o.end_point e (meant o there f)) (t.in_map q o there f)
    ]
  ]
    where
      outside : contains q n.open_links_list ≡ false → is_target (some e) false n q ≡ false
      outside out = rw out refl

      meant :
          (o : LinkObject)
          → contains q n.open_links_list ≡ true
          → find q n.objects ≡ some o
          → same_end_point o.end_point e ≡ true
      meant o there f = sym (rw (there, f) refl) ∙ h

  one_member :
      (p q : ℕ)
      → IsTable n
      → look_up e n.open_links_map ≡ some p
      → contains q (p ∷ []) ≡ is_target (some e) false n q
  unfolding contains
  one_member p q t there =
      let (listed, o, f, same) = t.on_list e p there in
      let mine : is_target (some e) false n p ≡ true = rw (listed, f) same in
      elim (Bool-cases (is_target (some e) false n q)) [
        | inl h ↦ ground (arith, there, target_found q t h)
        | inr h ↦ ground (arith, mine)
      ]

  no_member :
      (q : ℕ) → IsTable n → look_up e n.open_links_map ≡ none → is_target (some e) false n q ≡ false
  no_member q t missing = elim (Bool-cases (is_target (some e) false n q)) [
    | inl h ↦ cc (missing, target_found q t h)
    | inr h ↦ h
  ]

-- forEachLink goes through the links that are meant, each once.
pub chosen-IsChoice :
    (specific : Option EndPoint) (exclude : Bool) (n : RecvNode)
    → IsTable n
    → IsChoice (is_target specific exclude n) (chosen specific exclude n)
unfolding chosen contains AreDistinct
chosen-IsChoice none exclude n t = IsChoice-all n exclude t
chosen-IsChoice (some e) true n t = IsChoice-all_but e n n.open_links_list t.distinct t.has_objects
chosen-IsChoice (some e) false n t = elim (Option-cases (look_up e n.open_links_map)) [
  | inl missing ↦ record {
    addresses = [];
    is_some = rw (missing, chosen) refl;
    are_distinct = tt;
    members = λ q. sym (no_member e n q t missing);
  }
  | inr (p, there) ↦ record {
    addresses = p ∷ [];
    is_some = rw (there, chosen) refl;
    are_distinct = (refl, tt);
    members = λ q. one_member e n p q t there;
  }
]

-- Whether an address of a list has a property.
unfoldable pub some_in : (ℕ → Bool) → List ℕ → Bool
some_in t [] = false
some_in t (p ∷ ps) = t p || some_in t ps

some_in-found :
    (t : ℕ → Bool) (ps : List ℕ)
    → some_in t ps ≡ true
    → (q : ℕ) × (contains q ps ≡ true) × (t q ≡ true)
unfolding some_in contains
some_in-found t [] h = absurd (not_true h)
  where
    not_true : false ≢ true
    not_true e = cc
some_in-found t (p ∷ ps) h = elim (Bool-cases (t p)) [
  | inl yes_here ↦ (p, ground arith, yes_here)
  | inr not_here ↦
      let (q, c, k) = some_in-found t ps (sym (rw not_here refl) ∙ h) in (q, ground arith, k)
]

some_in-there :
    (t : ℕ → Bool) (ps : List ℕ) (q : ℕ) → contains q ps ≡ true → t q ≡ true → some_in t ps ≡ true
unfolding some_in contains
some_in-there t [] q c h = cc
some_in-there t (p ∷ ps) q c h = ground (arith, some_in-there t ps q)

-- It depends only on what is on the list.
pub some_in-same :
    (t u : ℕ → Bool) (ps qs : List ℕ)
    → ((q : ℕ) → (contains q ps && t q) ≡ (contains q qs && u q))
    → some_in t ps ≡ some_in u qs
some_in-same t u ps qs same = elim (Bool-cases (some_in t ps)) [
  | inl h ↦
      let (q, c, k) = some_in-found t ps h in
      let (c', k') = both (contains q qs) (u q) (sym (same q) ∙ rw (c, k) refl) in
      h ∙ sym (some_in-there u qs q c' k')
  | inr h ↦ elim (Bool-cases (some_in u qs)) [
    | inr k ↦ h ∙ sym k
    | inl k ↦
        let (q, c, l) = some_in-found u qs k in
        let (c', l') = both (contains q ps) (t q) (same q ∙ rw (c, l) refl) in
        cc (h, k, some_in-there t ps q c' l')
  ]
]
  where
    both : (a b : Bool) → (a && b) ≡ true → (a ≡ true) × (b ≡ true)
    both a b e = (ground arith, ground arith)
