-- ===== src/Listx/Seg.antt =====
-- Segments of doubly linked nodes: what the primitives of headers/listx.h do to them.
use progetto_sistemi_operati.Base.{
  ◌≡◌, ◌≢◌, sym, ◌∙◌, List, [], ◌∷◌, ◌++◌, arith, NotIn, Distinct, last_of, first_of, All,
}
use progetto_sistemi_operati.Memory.{Addr, Links}
use progetto_sistemi_operati.Listx.{list_add_between, list_del_between, list_del, init_list_head}

-- From `a` the `next` pointers lead through `xs` to `b`, and the `prev` pointers lead back.
abbrev pub Seg : Links → Addr → List Addr → Addr → Type 0
Seg m a [] b = (m.next a ≡ b) × (m.prev b ≡ a)
Seg m a (x ∷ xs) b = (m.next a ≡ x) × (m.prev x ≡ a) × Seg m x xs b

pub ne-last_of : (c a : Addr) (xs : List Addr) → c ≢ a → NotIn c xs → c ≢ last_of a xs
ne-last_of c a [] h n = h
ne-last_of c a (x ∷ xs) h n = ne-last_of c x xs n.0 n.1

pub ne-first_of : (c b : Addr) (xs : List Addr) → c ≢ b → NotIn c xs → c ≢ first_of xs b
ne-first_of c b [] h n = h
ne-first_of c b (x ∷ xs) h n = n.0

pub NotIn-append_left : (c : Addr) (xs ys : List Addr) → NotIn c (xs ++ ys) → NotIn c xs
NotIn-append_left c [] ys n = tt
NotIn-append_left c (x ∷ xs) ys n = (n.0, NotIn-append_left c xs ys n.1)

pub NotIn-append_right : (c : Addr) (xs ys : List Addr) → NotIn c (xs ++ ys) → NotIn c ys
NotIn-append_right c [] ys n = n
NotIn-append_right c (x ∷ xs) ys n = NotIn-append_right c xs ys n.1

-- `m'` differs from `m` at most at the addresses of `touched`.
abbrev pub SameOutside : List Addr → Links → Links → Type 0
SameOutside touched m m' =
    (c : Addr) → NotIn c touched → (m'.next c ≡ m.next c) × (m'.prev c ≡ m.prev c)

-- A segment survives any change that spares its addresses.
pub Seg-frame :
    (m m' : Links) (touched : List Addr) (a : Addr) (xs : List Addr) (b : Addr)
    → SameOutside touched m m'
    → NotIn a touched
    → All (λ x. NotIn x touched) xs
    → NotIn b touched
    → Seg m a xs b
    → Seg m' a xs b
Seg-frame m m' touched a [] b same na nx nb s = ((same a na).0 ∙ s.0, (same b nb).1 ∙ s.1)
Seg-frame m m' touched a (x ∷ xs) b same na nx nb s = (
  (same a na).0 ∙ s.0,
  (same x nx.0).1 ∙ s.1,
  Seg-frame m m' touched x xs b same nx.0 nx.1 nb s.2,
)

pub next-Seg :
    (m : Links) (a : Addr) (xs : List Addr) (b : Addr) → Seg m a xs b → m.next a ≡ first_of xs b
next-Seg m a [] b s = s.0
next-Seg m a (x ∷ xs) b s = s.0

pub prev-Seg :
    (m : Links) (a : Addr) (xs : List Addr) (b : Addr) → Seg m a xs b → m.prev b ≡ last_of a xs
prev-Seg m a [] b s = s.1
prev-Seg m a (x ∷ xs) b s = prev-Seg m x xs b s.2

-- In the middle of a segment stands a node with its neighbours.
pub prev-Seg_mid :
    (m : Links) (a : Addr) (xs : List Addr) (x : Addr) (ys : List Addr) (b : Addr)
    → Seg m a (xs ++ x ∷ ys) b
    → m.prev x ≡ last_of a xs
prev-Seg_mid m a [] x ys b s = s.1
prev-Seg_mid m a (y ∷ xs) x ys b s = prev-Seg_mid m y xs x ys b s.2

pub next-Seg_mid :
    (m : Links) (a : Addr) (xs : List Addr) (x : Addr) (ys : List Addr) (b : Addr)
    → Seg m a (xs ++ x ∷ ys) b
    → m.next x ≡ first_of ys b
next-Seg_mid m a [] x ys b s = next-Seg m x ys b s.2
next-Seg_mid m a (y ∷ xs) x ys b s = next-Seg_mid m y xs x ys b s.2

pub next-Seg_after :
    (m : Links) (a : Addr) (xs ys : List Addr) (b : Addr)
    → Seg m a (xs ++ ys) b
    → m.next (last_of a xs) ≡ first_of ys b
next-Seg_after m a [] ys b s = next-Seg m a ys b s
next-Seg_after m a (x ∷ xs) ys b s = next-Seg_after m x xs ys b s.2

module _ (new p n : Addr) (m : Links) where
  pub list_add_between-SameOutside : SameOutside (new ∷ p ∷ n ∷ []) m (list_add_between new p n m)
  unfolding list_add_between
  list_add_between-SameOutside c (n0, (n1, (n2, _))) = ground arith

  list_add_between-Seg_keep :
      (a : Addr) (xs : List Addr) (b : Addr)
      → p ≢ a
      → NotIn p xs
      → NotIn n xs
      → n ≢ b
      → new ≢ a
      → NotIn new xs
      → new ≢ b
      → Seg m a xs b
      → Seg (list_add_between new p n m) a xs b
  unfolding list_add_between
  list_add_between-Seg_keep a [] b pa px nx nb fa fx fb s = ground arith
  list_add_between-Seg_keep a (x ∷ xs) b pa px nx nb fa fx fb s = (
    ground arith,
    ground arith,
    list_add_between-Seg_keep x xs b px.0 px.1 nx.1 nb fx.0 fx.1 fb s.2,
  )

-- A new node between the last of `a ∷ xs` and the first of `ys`, `b`.
pub list_add_between-Seg :
    (new : Addr) (m : Links) (a : Addr) (xs ys : List Addr) (b : Addr)
    → Distinct (a ∷ xs ++ ys)
    → NotIn b (xs ++ ys)
    → NotIn new (a ∷ xs ++ ys)
    → new ≢ b
    → Seg m a (xs ++ ys) b
    → Seg (list_add_between new (last_of a xs) (first_of ys b) m) a (xs ++ new ∷ ys) b
unfolding list_add_between
list_add_between-Seg new m a [] [] b d nb f fb s = ground arith
list_add_between-Seg new m a [] (y ∷ ys) b d nb f fb s = (
  ground arith,
  ground arith,
  (
    ground arith,
    ground arith,
    list_add_between-Seg_keep new a y m y ys b d.0.0 d.0.1 d.1.0 (λ e. nb.0 (sym e)) f.1.0 f.1.1 fb
        s.2,
  ),
)
list_add_between-Seg new m a (x ∷ xs) ys b d nb f fb s = (
  ground (arith, ne-last_of a x xs d.0.0 (NotIn-append_left a xs ys d.0.1)),
  ground (arith, ne-first_of x b ys (λ e. nb.0 (sym e)) (NotIn-append_right x xs ys d.1.0)),
  list_add_between-Seg new m x xs ys b d.1 nb.1 f.1 fb s.2,
)

module _ (x p n : Addr) (m : Links) (at_p : m.prev x ≡ p) (at_n : m.next x ≡ n) where
  pub list_del-SameOutside : SameOutside (x ∷ p ∷ n ∷ []) m (list_del x m)
  unfolding list_del list_del_between
  list_del-SameOutside c (n0, (n1, (n2, _))) = ground arith

  list_del-Seg_keep :
      (a : Addr) (xs : List Addr) (b : Addr)
      → p ≢ a
      → NotIn p xs
      → NotIn n xs
      → n ≢ b
      → x ≢ a
      → NotIn x xs
      → x ≢ b
      → Seg m a xs b
      → Seg (list_del x m) a xs b
  unfolding list_del list_del_between
  list_del-Seg_keep a [] b pa px nx nb fa fx fb s = ground arith
  list_del-Seg_keep a (y ∷ xs) b pa px nx nb fa fx fb s =
      (ground arith, ground arith, list_del-Seg_keep y xs b px.0 px.1 nx.1 nb fx.0 fx.1 fb s.2)

-- The node leaves the segment.
list_del-Seg_at :
    (x : Addr) (m : Links) (a : Addr) (xs ys : List Addr) (b : Addr)
    → m.prev x ≡ last_of a xs
    → m.next x ≡ first_of ys b
    → Distinct (a ∷ xs ++ ys)
    → NotIn b (xs ++ ys)
    → NotIn x (a ∷ xs ++ ys)
    → x ≢ b
    → Seg m a (xs ++ x ∷ ys) b
    → Seg (list_del x m) a (xs ++ ys) b
unfolding list_del list_del_between
list_del-Seg_at x m a [] [] b ep en d nb f fb s = ground arith
list_del-Seg_at x m a [] (y ∷ ys) b ep en d nb f fb s = (
  ground arith,
  ground arith,
  list_del-Seg_keep x a y m ep en y ys b d.0.0 d.0.1 d.1.0 (λ e. nb.0 (sym e)) f.1.0 f.1.1 fb s.2.2,
)
list_del-Seg_at x m a (y ∷ xs) ys b ep en d nb f fb s = (
  ground (arith, ne-last_of a y xs d.0.0 (NotIn-append_left a xs ys d.0.1)),
  ground (arith, ne-first_of y b ys (λ e. nb.0 (sym e)) (NotIn-append_right y xs ys d.1.0)),
  list_del-Seg_at x m y xs ys b ep en d.1 nb.1 f.1 fb s.2,
)

pub list_del-Seg :
    (x : Addr) (m : Links) (a : Addr) (xs ys : List Addr) (b : Addr)
    → Distinct (a ∷ xs ++ ys)
    → NotIn b (xs ++ ys)
    → NotIn x (a ∷ xs ++ ys)
    → x ≢ b
    → Seg m a (xs ++ x ∷ ys) b
    → Seg (list_del x m) a (xs ++ ys) b
list_del-Seg x m a xs ys b d nb f fb s =
    list_del-Seg_at x m a xs ys b (prev-Seg_mid m a xs x ys b s) (next-Seg_mid m a xs x ys b s) d nb
      f fb s

-- `INIT_LIST_HEAD` makes an empty ring and writes nowhere else.
pub init_list_head-Seg : (a : Addr) (m : Links) → Seg (init_list_head a m) a [] a
unfolding init_list_head
init_list_head-Seg a m = ground arith

pub init_list_head-SameOutside :
    (a : Addr) (m : Links) → SameOutside (a ∷ []) m (init_list_head a m)
unfolding init_list_head
init_list_head-SameOutside a m c (n0, _) = ground arith
