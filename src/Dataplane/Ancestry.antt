-- ===== src/Dataplane/Ancestry.antt =====
-- The two loops of `Ancestors`, internal/dataplane/graph.go: what they keep true of the set and the queue.
use n8n_turbo.Prelude.{
  ◌≡◌, ◌⊎◌, refl, sym, true, String, List, [], ◌∷◌, ◌++◌, arith, if◌then◌else◌, ◌==◌, string_eq,
  str_iff, Bool-cases, inl, inr, subst,
}
use n8n_turbo.Prelude.Map.{lookup-insert}
use n8n_turbo.Dataplane.Graph.{Graph, StringSet, marked, mark, parents, visit}

-- `x` is an entry of `xs`.
abbrev pub In : String → List String → Type 0
In x [] = ⊥
In x (y ∷ ys) = (x ≡ y) ⊎ In x ys

pub In-append_left : (x : String) (xs ys : List String) → In x xs → In x (xs ++ ys)
In-append_left x [] ys h = absurd h
In-append_left x (y ∷ xs) ys (inl e) = inl e
In-append_left x (y ∷ xs) ys (inr h) = inr (In-append_left x xs ys h)

pub In-append_right : (x : String) (xs ys : List String) → In x ys → In x (xs ++ ys)
In-append_right x [] ys h = h
In-append_right x (y ∷ xs) ys h = inr (In-append_right x xs ys h)

pub In-append : (x : String) (xs ys : List String) → In x (xs ++ ys) → In x xs ⊎ In x ys
In-append x [] ys h = inr h
In-append x (y ∷ xs) ys (inl e) = inl (inl e)
In-append x (y ∷ xs) ys (inr h) = elim (In-append x xs ys h) [ inl a ↦ inl (inr a) | inr b ↦ inr b ]

pub marked-mark :
    (x y : String) (set : StringSet)
    → marked y (mark x set) ≡ (if x == y then true else marked y set)
marked-mark x y set = ground (arith, lookup-insert x y true set)

-- `Reached g n a`: the calls of `Parents` lead from `n` to `a`.
pub data Reached (g : Graph) (n : String) : String → Type 0 where
  reached_self : Reached g n n
  reached_parent : {a b : String} → Reached g n b → In a (parents g b "main") → Reached g n a

-- What the inner loop does to the set and the queue.
pub record Visited (ps : List String) (set set' : StringSet) (queue queue' : List String)
    : Type 0 where
  pub grows : (x : String) → marked x set ≡ true → marked x set' ≡ true
  pub all_marked : (x : String) → In x ps → marked x set' ≡ true
  pub only : (x : String) → marked x set' ≡ true → (marked x set ≡ true) ⊎ (In x ps × In x queue')
  pub keeps : (x : String) → In x queue → In x queue'
  pub queued : (x : String) → In x queue' → In x queue ⊎ In x ps

Visited-old :
    (p : String) (ps : List String) (set set' : StringSet) (queue queue' : List String)
    → marked p set ≡ true
    → Visited ps set set' queue queue'
    → Visited (p ∷ ps) set set' queue queue'
Visited-old p ps set set' queue queue' old v = record {
  grows = v.grows;
  all_marked = elim_in;
  only = λ x h. elim (v.only x h) [ inl a ↦ inl a | inr b ↦ inr (inr b.0, b.1) ];
  keeps = v.keeps;
  queued = λ x h. elim (v.queued x h) [ inl a ↦ inl a | inr b ↦ inr (inr b) ];
}
  where
    elim_in : (x : String) → In x (p ∷ ps) → marked x set' ≡ true
    elim_in x (inl e) = v.grows x (subst (λ y. marked y set ≡ true) (sym e) old)
    elim_in x (inr i) = v.all_marked x i

Visited-new :
    (p : String) (ps : List String) (set set' : StringSet) (queue queue' : List String)
    → Visited ps (mark p set) set' (queue ++ p ∷ []) queue'
    → Visited (p ∷ ps) set set' queue queue'
Visited-new p ps set set' queue queue' v = record {
  grows = λ x h. v.grows x (ground (arith, marked-mark p x set, h));
  all_marked = elim_in;
  only = λ x h. elim (v.only x h) [
    | inl a ↦ elim (Bool-cases (p == x)) [
      | inl same ↦ inr (
        inl (sym ((str_iff p x).0 same)),
        v.keeps x (In-append_right x queue (p ∷ []) (inl (sym ((str_iff p x).0 same)))),
      )
      | inr other ↦ inl (ground (arith, marked-mark p x set, a, other))
    ]
    | inr b ↦ inr (inr b.0, b.1)
  ];
  keeps = λ x h. v.keeps x (In-append_left x queue (p ∷ []) h);
  queued = λ x h. elim (v.queued x h) [
    | inl a ↦ elim (In-append x queue (p ∷ []) a) [ inl b ↦ inl b | inr c ↦ inr (only_p x c) ]
    | inr b ↦ inr (inr b)
  ];
}
  where
    elim_in : (x : String) → In x (p ∷ ps) → marked x set' ≡ true
    elim_in x (inl e) = v.grows x (ground (arith, marked-mark p x set, e, str_iff p x))
    elim_in x (inr i) = v.all_marked x i

    only_p : (x : String) → In x (p ∷ []) → In x (p ∷ ps)
    only_p x (inl e) = inl e
    only_p x (inr h) = absurd h

pub visit_lem :
    (ps : List String) (set : StringSet) (queue : List String)
    → Visited ps set (visit ps set queue).0 queue (visit ps set queue).1
unfolding visit
visit_lem [] set queue = record {
  grows = λ x h. h;
  all_marked = λ x h. absurd h;
  only = λ x h. inl h;
  keeps = λ x h. h;
  queued = λ x h. inl h;
}
visit_lem (p ∷ ps) set queue = elim (Bool-cases (marked p set)) [
  | inl old ↦ rw (old, visit) (Visited-old p ps set _ queue _ old (visit_lem ps set queue))
  | inr new ↦
      rw (new, visit) (Visited-new p ps set _ queue _ (visit_lem ps (mark p set) (queue ++ p ∷ [])))
]

-- The invariant of the outer loop.
pub record Searched (g : Graph) (n : String) (set : StringSet) (queue : List String) : Type 0 where
  pub root : marked n set ≡ true
  pub sound : (x : String) → marked x set ≡ true → Reached g n x
  pub waiting : (x : String) → In x queue → Reached g n x
  pub closed :
      (x y : String)
      → marked x set ≡ true
      → In y (parents g x "main")
      → In x queue ⊎ (marked y set ≡ true)

pub Searched-visit :
    (g : Graph) (n current : String) (set : StringSet) (queue : List String) (set' : StringSet)
    (queue' : List String)
    → Searched g n set (current ∷ queue)
    → Visited (parents g current "main") set set' queue queue'
    → Searched g n set' queue'
Searched-visit g n current set queue set' queue' s v = record {
  root = v.grows n s.root;
  sound = λ x h. elim (v.only x h) [
    | inl a ↦ s.sound x a
    | inr b ↦ reached_parent (s.waiting current (inl refl)) b.0
  ];
  waiting = λ x h. elim (v.queued x h) [
    | inl a ↦ s.waiting x (inr a)
    | inr b ↦ reached_parent (s.waiting current (inl refl)) b
  ];
  closed = λ x y h i. elim (v.only x h) [
    | inl a ↦ elim (s.closed x y a i) [ inl q ↦ here x y i q | inr m ↦ inr (v.grows y m) ]
    | inr b ↦ inl b.1
  ];
}
  where
    here :
        (x y : String)
        → In y (parents g x "main")
        → In x (current ∷ queue)
        → In x queue' ⊎ (marked y set' ≡ true)
    here x y i (inl e) = inr (v.all_marked y (subst (λ c. In y (parents g c "main")) e i))
    here x y i (inr q) = inl (v.keeps x q)
