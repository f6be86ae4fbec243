-- ===== src/Globalfifo/Threads/Progress.antt =====
-- globalfifo.c: whoever waits for the semaphore gets it.
use lkm_practice.Base.{
  ℕ, ◌≡◌, ◌≢◌, refl, sym, ap, ◌∙◌, true, some, none, arith, ◌⊎◌, inl, inr, update_self,
  update_other,
}
use mathlib.Core.Path.{subst}
use lkm_practice.Kernel.{Uaccess, IsFilling}
use lkm_practice.Globalfifo.{Fifo}
use lkm_practice.Globalfifo.Threads.{
  Section, Stage, start, Work, is_entry, after_sleep, idle, waiting, inside, asleep, System, update,
  Step, works, ups, downs, falls_asleep, Reach,
}
use lkm_practice.Globalfifo.Threads.Atomic.{free, held, Reach-Inv}
use lkm_practice.Globalfifo.Threads.Finish.{
  Pieces, no_more, piece, Final, at_up, at_sleep, finish_start, finish,
}

-- Steps from one state to another.
pub data Run (k : Uaccess) : System → System → Type 0 where
  stay : {s : System} → Run k s s
  first : {s t u : System} → Step k s t → Run k t u → Run k s u

join : {k : Uaccess} {s t u : System} → Run k s t → Run k t u → Run k s u
join stay more = more
join (first step run) more = first step (join run more)

-- Process `i` is out of its section `sec`: it has returned, or it sleeps after its entry.
abbrev pub Out : ℕ → Section → System → Type 0
Out i sec t =
    (t.process i ≡ idle) ⊎ ((is_entry sec ≡ true) × (t.process i ≡ asleep (after_sleep sec)))

module _ (k : Uaccess) where
  leaves :
      (i : ℕ) (sec : Section) {s : System} {st : Stage}
      → Final sec st
      → s.process i ≡ inside sec st
      → (t : System) × Run k s t
        × (t.owner ≡ none)
        × Out i sec t
        × ((m : ℕ) → i ≢ m → t.process m ≡ s.process m)
  leaves i sec {s} (at_up ret sent) at_i = (
    _,
    first (ups i sec ret sent at_i) stay,
    refl,
    inl (update_self s.process i idle),
    update_other s.process i idle,
  )
  leaves i sec {s} (at_sleep entry) at_i =
      let down_there = asleep (after_sleep sec) in
      (
        _,
        first (falls_asleep i sec at_i) stay,
        refl,
        inr (entry, update_self s.process i down_there),
        update_other s.process i down_there,
      )

  section_ends :
      (i : ℕ) (sec : Section) {s : System} {st st' : Stage} {dev dev' : Fifo}
      → Pieces k sec dev st dev' st'
      → Final sec st'
      → s.dev ≡ dev
      → s.process i ≡ inside sec st
      → (t : System) × Run k s t
        × (t.owner ≡ none)
        × Out i sec t
        × ((m : ℕ) → i ≢ m → t.process m ≡ s.process m)
  section_ends i sec no_more final here at_i = leaves i sec final at_i
  section_ends i sec {s} {st} (piece {dev' = dev'} {st' = st'} work rest) final here at_i =
      let p = inside sec st' in
      let (t, run, unowned, out, others) =
        section_ends i sec {s = record s { dev = dev'; process = update s.process i p }} rest final
          refl (update_self s.process i p) in
      (
        t,
        first (works i sec st st' dev' at_i (subst (λ d. Work k d sec st dev' st') (sym here) work))
            run,
        unowned,
        out,
        λ m apart. others m apart ∙ update_other s.process i p m apart,
      )

  -- Nobody holds the semaphore.
  free_served :
      (i : ℕ) (sec : Section) {s : System}
      → s.owner ≡ none
      → s.process i ≡ waiting sec
      → (t : System) × Run k s t
        × (t.owner ≡ none)
        × Out i sec t
        × ((m : ℕ) → i ≢ m → t.process m ≡ s.process m)
  free_served i sec {s} unowned at_i =
      let (dev', st', pieces, final) = finish_start k sec s.dev in
      let p = inside sec start in
      let (t, run, unowned', out, others) =
        section_ends i sec {s = record s { owner = some i; process = update s.process i p }} pieces
          final refl (update_self s.process i p) in
      (
        t,
        first (downs i sec at_i unowned) run,
        unowned',
        out,
        λ m apart. others m apart ∙ update_other s.process i p m apart,
      )

module _ (k : Uaccess) (filling : IsFilling k) where
  -- Nobody waits for the semaphore for ever for want of a step: from every state that the pieces of
  -- any calls lead to, steps of the process that holds the semaphore, if one does, and of a process
  -- that waits for it lead to one in which nobody holds it and the process that waited has returned,
  -- or sleeps, for which it must have come from its entry, and no third process has moved.
  -- copy_from_user fills all the bytes that it is to store.
  pub waiting_served :
      (i : ℕ) (sec : Section) {s : System}
      → Reach k s
      → s.process i ≡ waiting sec
      → (t : System) × Run k s t
        × (t.owner ≡ none)
        × Out i sec t
        × ((m : ℕ) → i ≢ m → s.owner ≢ some m → t.process m ≡ s.process m)
  waiting_served i sec {s} reach at_i = elim (Reach-Inv k filling reach).mutex [
    | free unowned valid stream ↦
        let (t, run, unowned', out, others) = free_served k i sec unowned at_i in
        (t, run, unowned', out, λ m apart third. others m apart)
    | held h c st dev0 owned at_h valid known stream ↦
        let apart : h ≢ i = λ e. absurd (ground (arith, at_h, at_i, ap s.process e)) in
        let (dev', st', pieces, final) = finish k c st dev0 s.dev known in
        let (u, run, unowned, out, others) = section_ends k h c pieces final refl at_h in
        let (t, run', unowned', out', others') =
          free_served k i sec unowned (others i apart ∙ at_i) in
        (
          t,
          join run run',
          unowned',
          out',
          λ m other third. others' m other ∙ others m (λ e. third (owned ∙ ap some e)),
        )
  ]
