-- ===== src/Asl/Quit.antt =====
-- `outBlocked` of phase1/asl.c by the queues of the keys: a PCB quits the queue that it is in.
use progetto_sistemi_operati.Base.{
  ℕ, ◌≤◌, ◌≡◌, ◌≢◌, refl, sym, ◌∙◌, ap, subst, none, some, inl, inr, List, [], ◌∷◌, ◌++◌, arith,
  length, All, In, NotIn, Bool-cases, ◌==◌, eq_of_==,
}
use progetto_sistemi_operati.Memory.{Head, p_list, p_sib, s_link, s_procq, semd_free, semd_active}
use progetto_sistemi_operati.Listx.View.{View}
use progetto_sistemi_operati.Listx.Sequences.{All-append_right}
use progetto_sistemi_operati.Listx.Removal.{erase, erase-mid, spot, In-NotIn}
use progetto_sistemi_operati.Store.{Store, ok}
use progetto_sistemi_operati.Pcb.{max_proc}
use progetto_sistemi_operati.Asl.{out_blocked}
use progetto_sistemi_operati.Asl.View.{Sem, Asl, HoldsSem, keys}
use progetto_sistemi_operati.Asl.Waiting.{
  waiting, locate, waiting-missing, waiting-mid, waiting-other, waiting-drop, waiting-dropped,
  length-before, length-dropped, length-replaced,
}
use progetto_sistemi_operati.Asl.Outcome.{no_sem, Slot}
use progetto_sistemi_operati.Asl.Spec.{owner-close, Slot-close}
use progetto_sistemi_operati.Asl.Find.{keys-before}
use progetto_sistemi_operati.Asl.Out.{out_blocked-more, out_blocked-last}

-- The PCB `p` has quit the queue of the key `k`. The other queues, the other lists, the places of
-- the other PCBs and their fields are as they were.
pub record Quits (s : Store) (v : View) (k p : ℕ) (sems : List Sem) (t : Store) : Type 0 where
  pub view : View
  pub sems' : List Sem
  pub spare' : List ℕ
  pub asl : Asl t view sems' spare'
  pub queue : waiting k sems' ≡ erase p (waiting k sems)
  pub same : (j : ℕ) → j ≢ k → waiting j sems' ≡ waiting j sems
  pub fewer : length sems' ≤ length sems
  pub lists :
      (h : Head)
      → h ≢ semd_free
      → h ≢ semd_active
      → ((d : ℕ) → h ≢ s_procq d)
      → view.items h ≡ v.items h
  pub unlisted : view.owner (p_list p) ≡ none
  pub owners : (z : ℕ) → z ≢ p → view.owner (p_list z) ≡ v.owner (p_list z)
  pub siblings : (z : ℕ) → view.owner (p_sib z) ≡ v.owner (p_sib z)
  pub descriptors :
      (d : ℕ) (h : Head)
      → view.owner (s_link d) ≡ some h
      → (h' : Head) × (v.owner (s_link d) ≡ some h')
  pub slots : (d : ℕ) → Slot v d → Slot view d
  pub others : (z : ℕ) → z ≢ p → t.pcb z ≡ s.pcb z
  pub awake : t.pcb p ≡ no_sem (s.pcb p)
  pub globals : t ≡ record s { links = t.links; pcb = t.pcb }

abbrev pub Quit : Store → View → ℕ → ℕ → List Sem → Type 0
Quit s v k p sems = (t : Store) × (out_blocked p s ≡ ok (some p) t) × Quits s v k p sems t

module _ (s : Store) (v : View) (spare : List ℕ) (p : ℕ) where
  module _ (before : List Sem) (x : Sem) (after : List Sem)
      (a : Asl s v (before ++ x ∷ after) spare) (n : NotIn x.key (keys before))
      (short : length (before ++ x ∷ after) ≤ max_proc) (waits : (s.pcb p).sem_add ≡ x.key)
      (near : length x.queue ≤ max_proc) (front : List ℕ) (back : List ℕ)
      (stands : x.queue ≡ front ++ p ∷ back) (first : NotIn p front) where
    queue_then : waiting x.key (before ++ x ∷ after) ≡ front ++ p ∷ back
    queue_then = waiting-mid before x after n ∙ stands

    erased : erase p (waiting x.key (before ++ x ∷ after)) ≡ front ++ back
    erased = ap (erase p) queue_then ∙ erase-mid p front back first

    holds : HoldsSem s v x
    holds = (All-append_right (HoldsSem s v) before (x ∷ after) a.holds).0

    near_front : length front ≤ max_proc
    near_front =
        let e : length x.queue ≡ length (front ++ p ∷ back) = ap length stands in
        omega (arith, length-before front p back)

    out_at : (rest : List ℕ) → front ++ back ≡ rest → Quit s v x.key p (before ++ x ∷ after)
    out_at [] last =
        let (run, asl) =
          out_blocked-last s v before x after spare p a holds n
            (omega (arith, length-before before x after)) waits front back stands near_front last in
        (
          _,
          run,
          record {
            view = _;
            sems' = _;
            spare' = _;
            asl = asl;
            queue =
                waiting-dropped before x after n (keys-before before x after a.unique).1
                ∙ sym (erased ∙ last);
            same = λ j ne. waiting-drop j before x after ne;
            fewer = length-dropped before x after;
            lists = λ h f a q. ground (arith, f, a, q x.desc);
            unlisted = ground arith;
            owners = λ z ne. ground (arith, ne);
            siblings = λ z. ground arith;
            descriptors = λ c h o. owner-close s v before x after spare p a c h o;
            slots = λ d. Slot-close v before x after spare p d;
            others = λ z ne. ground (arith, ne);
            awake = ground arith;
            globals = refl;
          },
        )
    out_at (q ∷ rest) more =
        let (run, asl) =
          out_blocked-more s v before x after spare p a holds n
            (omega (arith, length-before before x after)) waits front back stands near_front q rest
            more in
        (
          _,
          run,
          record {
            view = _;
            sems' = _;
            spare' = _;
            asl = asl;
            queue = waiting-mid before (record x { queue = front ++ back }) after n ∙ sym erased;
            same =
                λ j ne. waiting-other j before x (record x { queue = front ++ back }) after ne refl;
            fewer = length-replaced before (record x { queue = front ++ back }) x after;
            lists = λ h f a q. ground (arith, f, a, q x.desc);
            unlisted = ground arith;
            owners = λ z ne. ground (arith, ne);
            siblings = λ z. ground arith;
            descriptors = λ c h o. (h, ground (arith, o));
            slots = λ d slot. elim slot [
              | inl a ↦ inl (ground (arith, a))
              | inr a ↦ inr (ground (arith, a))
            ];
            others = λ z ne. ground (arith, ne);
            awake = ground arith;
            globals = refl;
          },
        )

  out_spot :
      (before : List Sem) (x : Sem) (after : List Sem)
      → Asl s v (before ++ x ∷ after) spare
      → NotIn x.key (keys before)
      → length (before ++ x ∷ after) ≤ max_proc
      → (s.pcb p).sem_add ≡ x.key
      → length x.queue ≤ max_proc
      → In p x.queue
      → Quit s v x.key p (before ++ x ∷ after)
  out_spot before x after a n short waits near stands = elim (spot p x.queue) [
    | inr out ↦ absurd (In-NotIn p x.queue stands out)
    | inl at ↦
        out_at before x after a n short waits near at.front at.back at.split at.first
          (at.front ++ at.back) refl
  ]

  -- With at most `max_proc` semaphores active and PCBs in the queue, `outBlocked` returns for a PCB
  -- that is in the queue of the semaphore that it names: it is taken out of that queue, wherever it
  -- stands, it is in no list and names no semaphore then, and the other queues, lists and PCBs stay.
  pub out_blocked-Quits :
      (k : ℕ) (sems : List Sem)
      → Asl s v sems spare
      → length sems ≤ max_proc
      → (s.pcb p).sem_add ≡ k
      → length (waiting k sems) ≤ max_proc
      → In p (waiting k sems)
      → Quit s v k p sems
  out_blocked-Quits k sems a short waits near stands = elim (locate k sems) [
    | inr out ↦ absurd (subst (In p) (waiting-missing k sems out) stands)
    | inl at ↦
        let first = subst (λ j. NotIn j (keys at.before)) (sym at.hit) at.first in
        let queue = waiting-mid at.before at.sem at.after first in
        let same : waiting k sems ≡ at.sem.queue =
          ap (waiting k) at.split
          ∙ ap (λ j. waiting j (at.before ++ at.sem ∷ at.after)) (sym at.hit)
          ∙ queue in
        subst (Quit s v k p) (sym at.split) (
          subst (λ j. Quit s v j p (at.before ++ at.sem ∷ at.after)) at.hit
            (out_spot at.before at.sem at.after (subst (λ l. Asl s v l spare) at.split a) first
              (subst (λ l. length l ≤ max_proc) at.split short) (waits ∙ sym at.hit)
              (subst (λ l. length l ≤ max_proc) same near) (subst (In p) same stands)))
  ]

-- The PCBs of a queue name its key.
pub waiting-keyed :
    (s : Store) (v : View) (k : ℕ) (sems : List Sem)
    → All (HoldsSem s v) sems
    → All (λ q. (s.pcb q).sem_add ≡ k) (waiting k sems)
unfolding waiting
waiting-keyed s v k [] h = tt
waiting-keyed s v k (x ∷ sems) h = elim (Bool-cases (x.key == k)) [
  | inl same ↦
      rw same
        (subst (λ j. All (λ q. (s.pcb q).sem_add ≡ j) x.queue) (eq_of_== x.key k same) h.0.waiting)
  | inr differ ↦ rw differ (waiting-keyed s v k sems h.1)
]
