-- ===== src/Asl/Spec.antt =====
-- The active semaphore list as a map from keys to queues: `insertBlocked` and `removeBlocked` of
-- phase1/asl.c against first-in-first-out queues.
use progetto_sistemi_operati.Base.{
  ℕ, ◌≤◌, ◌≡◌, refl, sym, ◌∙◌, ap, subst, none, inl, inr, List, [], ◌∷◌, ◌++◌, arith, NotIn, In,
  length, ℕ_discrete, some,
}
use progetto_sistemi_operati.Memory.{Head, p_list, s_link, semd_active, semd_free}
use progetto_sistemi_operati.Listx.View.{View}
use progetto_sistemi_operati.Listx.Sequences.{All-append_right, All-remove}
use progetto_sistemi_operati.Listx.Removal.{In-NotIn, NotIn-append_left, NotIn-append_right}
use progetto_sistemi_operati.Store.{Store}
use progetto_sistemi_operati.Pcb.{max_proc}
use progetto_sistemi_operati.Asl.Waiting.{
  waiting, others, locate, waiting-missing, waiting-mid, waiting-other, waiting-drop,
  waiting-dropped, length-before, length-dropped, length-replaced,
}
use progetto_sistemi_operati.Asl.View.{Sem, Asl, HoldsSem, keys, descs, descs-append}
use progetto_sistemi_operati.Asl.Leave.{closed_view, unlinked_view}
use progetto_sistemi_operati.Asl.Find.{keys-before}
use progetto_sistemi_operati.Asl.Block.{
  joined, insert_blocked-active, insert_blocked-new, insert_blocked-full,
}
use progetto_sistemi_operati.Asl.Remove.{
  remove_blocked-more, remove_blocked-last, remove_blocked-missing,
}
pub use progetto_sistemi_operati.Asl.Outcome.{no_sem, Became, Taken, Removed, Inserted}
use progetto_sistemi_operati.Asl.Outcome.{Slot}

In-first : (z p : ℕ) (ps : List ℕ) → In z (p ∷ ps) → NotIn z ps → z ≡ p
In-first z p ps (inl e) n = e
In-first z p ps (inr i) n = absurd (In-NotIn z ps i n)

-- A descriptor that has a place once one has become free had a place before.
pub owner-close :
    (s : Store) (v : View) (before : List Sem) (x : Sem) (after : List Sem) (spare : List ℕ) (p : ℕ)
    → Asl s v (before ++ x ∷ after) spare
    → (c : ℕ) (h : Head)
    → (closed_view x.desc (before ++ after) spare (unlinked_view x.desc p [] v)).owner (s_link c)
      ≡ some h
    → (h' : Head) × (v.owner (s_link c) ≡ some h')
owner-close s v before x after spare p a c h o = elim (ℕ_discrete c x.desc) [
  | yes same ↦
      let active =
        (All-remove (λ i. v.owner i ≡ some semd_active) (descs before) (s_link x.desc) (descs after)
          (rw (descs-append before (x ∷ after)) at (a.rings.owned _ _ a.active))).1 in
      (semd_active, ap (λ j. v.owner (s_link j)) same ∙ active)
  | no ne ↦ (h, ground (arith, o, ne))
]

-- A descriptor that has become free has its place, and the others keep theirs.
pub Slot-close :
    (v : View) (before : List Sem) (x : Sem) (after : List Sem) (spare : List ℕ) (p d : ℕ)
    → Slot v d
    → Slot (closed_view x.desc (before ++ after) spare (unlinked_view x.desc p [] v)) d
Slot-close v before x after spare p d slot = elim (ℕ_discrete d x.desc) [
  | yes same ↦ inr (ground (arith, same))
  | no ne ↦ elim slot [ inl a ↦ inl (ground (arith, a, ne)) | inr a ↦ inr (ground (arith, a, ne)) ]
]

module _ (s : Store) (v : View) (spare : List ℕ) where
  removed_at :
      (before : List Sem) (x : Sem) (after : List Sem) (queue : List ℕ)
      → Asl s v (before ++ x ∷ after) spare
      → NotIn x.key (keys before)
      → length (before ++ x ∷ after) ≤ max_proc
      → x.queue ≡ queue
      → Taken s v x.key queue (before ++ x ∷ after)
  removed_at before x after [] a n short e =
      absurd ((All-append_right (HoldsSem s v) before (x ∷ after) a.holds).0.nonempty e)
  removed_at before x after (p ∷ []) a n short e =
      let h = (All-append_right (HoldsSem s v) before (x ∷ after) a.holds).0 in
      let near : length before ≤ max_proc = omega (arith, length-before before x after) in
      let (run, asl) = remove_blocked-last s v before x after spare p a h n near e in
      (
        _,
        run,
        record {
          view = _;
          sems' = _;
          spare' = _;
          asl = asl;
          queue = waiting-dropped before x after n (keys-before before x after a.unique).1;
          same = λ j ne. waiting-drop j before x after ne;
          lists = λ h f a q. ground (arith, f, a, q x.desc);
          siblings = λ z. ground arith;
          owners =
              λ z out m. ground (arith, (subst (NotIn z) (waiting-mid before x after n ∙ e) m).0);
          descriptors = λ c h o. owner-close s v before x after spare p a c h o;
          slots = λ d. Slot-close v before x after spare p d;
          apart =
              λ z out m. ground (arith, (subst (NotIn z) (waiting-mid before x after n ∙ e) m).0);
          left = λ z out i.
              ground
                (arith, In-first z p [] (subst (In z) (waiting-mid before x after n ∙ e) i) out);
          pcbs = λ z. ground arith;
          globals = refl;
        },
        λ p' o. ground (arith, o),
        length-dropped before x after,
      )
  removed_at before x after (p ∷ q ∷ ps) a n short e =
      let h = (All-append_right (HoldsSem s v) before (x ∷ after) a.holds).0 in
      let near : length before ≤ max_proc = omega (arith, length-before before x after) in
      let (run, asl) = remove_blocked-more s v before x after spare p a h n near q ps e in
      (
        _,
        run,
        record {
          view = _;
          sems' = _;
          spare' = _;
          asl = asl;
          queue = waiting-mid before (record x { queue = q ∷ ps }) after n;
          same = λ j ne. waiting-other j before x (record x { queue = q ∷ ps }) after ne refl;
          lists = λ h f a q. ground (arith, f, a, q x.desc);
          siblings = λ z. ground arith;
          owners =
              λ z out m. ground (arith, (subst (NotIn z) (waiting-mid before x after n ∙ e) m).0);
          descriptors = λ c h o. (h, ground (arith, o));
          slots = λ d slot. elim slot [
            | inl a ↦ inl (ground (arith, a))
            | inr a ↦ inr (ground (arith, a))
          ];
          apart =
              λ z out m. ground (arith, (subst (NotIn z) (waiting-mid before x after n ∙ e) m).0);
          left = λ z out i. ground (
            arith,
            In-first z p (q ∷ ps) (subst (In z) (waiting-mid before x after n ∙ e) i) out,
          );
          pcbs = λ z. ground arith;
          globals = refl;
        },
        λ p' o. ground (arith, o),
        length-replaced before (record x { queue = q ∷ ps }) x after,
      )

  -- With at most `max_proc` semaphores active, `removeBlocked` returns, and is the removal of the
  -- oldest PCB of a first-in-first-out queue: it returns null where none waits on the key, leaves the
  -- key's other PCBs in order and the queues of the other keys as they were, and keeps the list of
  -- semaphores well formed.
  pub remove_blocked-oldest :
      (k : ℕ) (sems : List Sem) → Asl s v sems spare → length sems ≤ max_proc → Removed s v k sems
  remove_blocked-oldest k sems a short = elim (locate k sems) [
    | inr out ↦
        let e = waiting-missing k sems out in
        (
          s,
          rw e (remove_blocked-missing s v k sems spare a out short).0,
          record {
            view = v;
            sems' = sems;
            spare' = spare;
            asl = a;
            queue = e ∙ ap others (sym e);
            same = λ j ne. refl;
            lists = λ h f a q. refl;
            siblings = λ z. ground arith;
            owners = λ z out m. refl;
            descriptors = λ c h o. (h, o);
            slots = λ d slot. slot;
            apart = λ z out m. refl;
            left = λ z out i. absurd (subst (In z) e i);
            pcbs = λ z. ground arith;
            globals = refl;
          },
          λ p o. absurd (ground (arith, e, o)),
          omega arith,
        )
    | inl at ↦
        let first = subst (λ j. NotIn j (keys at.before)) (sym at.hit) at.first in
        subst (Removed s v k) (sym at.split) (
          subst (λ j. Removed s v j (at.before ++ at.sem ∷ at.after)) at.hit
            (removed_at at.before at.sem at.after _ (subst (λ l. Asl s v l spare) at.split a) first
              (subst (λ l. length l ≤ max_proc) at.split short)
              (sym (waiting-mid at.before at.sem at.after first))))
  ]

  -- The same, for a queue that is known.
  pub remove_blocked-queue :
      (k : ℕ) (q : List ℕ) (sems : List Sem)
      → Asl s v sems spare
      → length sems ≤ max_proc
      → waiting k sems ≡ q
      → Taken s v k q sems
  remove_blocked-queue k q sems a short e =
      subst (λ l. Taken s v k l sems) e (remove_blocked-oldest k sems a short)

  present-Inserted :
      (p : ℕ) (before : List Sem) (x : Sem) (after : List Sem)
      → Asl s v (before ++ x ∷ after) spare
      → NotIn x.key (keys before)
      → length (before ++ x ∷ after) ≤ max_proc
      → v.owner (p_list p) ≡ none
      → Inserted s v x.key p (before ++ x ∷ after) spare
  present-Inserted p before x after a n short free =
      let h = (All-append_right (HoldsSem s v) before (x ∷ after) a.holds).0 in
      let near : length before ≤ max_proc = omega (arith, length-before before x after) in
      let (run, asl) = insert_blocked-active s v before x after spare p a h free n near in
      inl (
        _,
        run,
        record {
          view = _;
          sems' = _;
          spare' = _;
          asl = asl;
          queue =
              waiting-mid before (joined x p) after n
              ∙ ap (λ l. l ++ p ∷ []) (sym (waiting-mid before x after n));
          same = λ j ne. waiting-other j before x (joined x p) after ne refl;
          lists = λ h f a q. ground (arith, f, a, q x.desc);
          siblings = λ z. ground arith;
          owners = λ z out m.
              ground (
                arith,
                (NotIn-append_right z (waiting x.key (before ++ x ∷ after)) (p ∷ []) out).0,
              );
          descriptors = λ c h o. (h, ground (arith, o));
          slots = λ d slot. elim slot [
            | inl a ↦ inl (ground (arith, a))
            | inr a ↦ inr (ground (arith, a))
          ];
          apart = λ z out m.
              ground (
                arith,
                (NotIn-append_right z (waiting x.key (before ++ x ∷ after)) (p ∷ []) out).0,
              );
          left = λ z out i. absurd (
              In-NotIn z (waiting x.key (before ++ x ∷ after)) i
                (NotIn-append_left z (waiting x.key (before ++ x ∷ after)) (p ∷ []) out));
          pcbs = λ z. ground arith;
          globals = refl;
        },
      )

-- A PCB on which no list has a claim is blocked on a key that has no queue yet.
opened-Inserted :
    (s : Store) (v : View) (spare : List ℕ) (k p : ℕ) (sems : List Sem)
    → Asl s v sems spare
    → NotIn k (keys sems)
    → length sems ≤ max_proc
    → v.owner (p_list p) ≡ none
    → Inserted s v k p sems spare
opened-Inserted s v [] k p sems a out short free =
    inr (insert_blocked-full s v sems k p a out short, refl, waiting-missing k sems out)
opened-Inserted s v (d ∷ spare) k p sems a out short free =
    let (run, asl) = insert_blocked-new s v sems d spare k p a free out short in
    inl (
      _,
      run,
      record {
        view = _;
        sems' = _;
        spare' = _;
        asl = asl;
        queue = rw (waiting-missing k sems out) (unfold waiting in ground arith);
        same = λ j ne. unfold waiting in ground arith;
        lists = λ h f a q. ground (arith, f, a, q d);
        siblings = λ z. ground arith;
        owners = λ z out m. ground (arith, (NotIn-append_right z (waiting k sems) (p ∷ []) out).0);
        descriptors = λ c h o. elim (ℕ_discrete c d) [
          | yes same ↦ (semd_free, ap (λ j. v.owner (s_link j)) same ∙ (a.rings.owned _ _ a.free).0)
          | no ne ↦ (h, ground (arith, o, ne))
        ];
        slots = λ c slot. elim (ℕ_discrete c d) [
          | yes same ↦ inl (ground (arith, same))
          | no ne ↦ elim slot [
            | inl a ↦ inl (ground (arith, a, ne))
            | inr a ↦ inr (ground (arith, a, ne))
          ]
        ];
        apart = λ z out m. ground (arith, (NotIn-append_right z (waiting k sems) (p ∷ []) out).0);
        left = λ z out i.
            absurd
              (In-NotIn z (waiting k sems) i (NotIn-append_left z (waiting k sems) (p ∷ []) out));
        pcbs = λ z. ground arith;
        globals = refl;
      },
    )

-- With at most `max_proc` semaphores active, `insertBlocked` returns: it puts a PCB that is in no
-- list at the end of the key's queue, leaves the queues of the other keys as they were and keeps the
-- list of semaphores well formed; or it returns TRUE and changes nothing, and then none waits on the
-- key and no descriptor is free.
pub insert_blocked-last :
    (s : Store) (v : View) (spare : List ℕ) (k p : ℕ) (sems : List Sem)
    → Asl s v sems spare
    → length sems ≤ max_proc
    → v.owner (p_list p) ≡ none
    → Inserted s v k p sems spare
insert_blocked-last s v spare k p sems a short free = elim (locate k sems) [
  | inr out ↦ opened-Inserted s v spare k p sems a out short free
  | inl at ↦
      let first = subst (λ j. NotIn j (keys at.before)) (sym at.hit) at.first in
      subst (λ l. Inserted s v k p l spare) (sym at.split)
        (subst (λ j. Inserted s v j p (at.before ++ at.sem ∷ at.after) spare) at.hit
          (present-Inserted s v spare p at.before at.sem at.after
            (subst (λ l. Asl s v l spare) at.split a) first
            (subst (λ l. length l ≤ max_proc) at.split short) free))
]
