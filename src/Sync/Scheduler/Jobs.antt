-- ===== src/Sync/Scheduler/Jobs.antt =====
-- Each source has at most one scheduled entry, the one that `jobs` names.
use role_provider_service.Base.{
  ℕ, ◌≡◌, ◌≢◌, ◌↔◌, ◌⊎◌, inl, inr, refl, sym, ap, subst, ◌∙◌, arith, List, [], ◌∷◌, none, some,
  Text, ◌==◌, nat_eq, is_empty, Memᴰ, Bool-cases, Option-cases, nat_beq_iff,
}
use role_provider_service.Base.Result.{ok, >>=-eq-ok, ok-inj, Result-cases}
use role_provider_service.Common.Types.{Uuid, Source}
use role_provider_service.Sync.Scheduler.{
  Cron, CronEntry, source_of, Jobs, find_job, delete_job, Scheduler, unregister, register,
  register_all,
}

find_job-delete_same : (x : Uuid) (jobs : Jobs) → find_job x (delete_job x jobs) ≡ none
unfolding find_job delete_job
find_job-delete_same x [] = refl
find_job-delete_same x ((y, id) ∷ jobs) = ground (arith, find_job-delete_same x jobs)

find_job-delete_other :
    (x y : Uuid) (jobs : Jobs) → y ≢ x → find_job y (delete_job x jobs) ≡ find_job y jobs
unfolding find_job delete_job
find_job-delete_other x y [] n = refl
find_job-delete_other x y ((z, id) ∷ jobs) n = ground (arith, find_job-delete_other x y jobs n)

find_job_head : (x : Uuid) (id : ℕ) (jobs : Jobs) → find_job x ((x, id) ∷ jobs) ≡ some id
unfolding find_job
find_job_head x id jobs = ground arith

find_job_later :
    (x y : Uuid) (id : ℕ) (jobs : Jobs) → y ≢ x → find_job y ((x, id) ∷ jobs) ≡ find_job y jobs
unfolding find_job
find_job_later x y id jobs n = ground arith

module _ (C : Cron) where
  pub record OneJob (s : Scheduler C) : Type 0 where
    pub job_of :
        (e : CronEntry) → Memᴰ e (C.entries s.cron) → find_job (source_of e) s.jobs ≡ some e.0
    pub entry_of :
        (src : Uuid) (id : ℕ)
        → find_job src s.jobs ≡ some id
        → (schedule : Text) × Memᴰ (id, (schedule, src)) (C.entries s.cron)
    pub same_source :
        (e f : CronEntry)
        → Memᴰ e (C.entries s.cron)
        → Memᴰ f (C.entries s.cron)
        → e.0 ≡ f.0
        → source_of e ≡ source_of f

  -- Without the entries of one source.
  abbrev pub Without : Uuid → Scheduler C → CronEntry → Type 0
  Without src s e = Memᴰ e (C.entries s.cron) × (source_of e ≢ src)

  other_source :
      (src : Uuid) (s : Scheduler C) (e : CronEntry)
      → OneJob s
      → find_job src s.jobs ≡ none
      → Memᴰ e (C.entries s.cron)
      → source_of e ≢ src
  other_source src s e inv absent m same =
      let h : find_job src s.jobs ≡ some e.0 = rw same at (inv.job_of e m) in cc

  same_job :
      (src : Uuid) (s : Scheduler C) (e : CronEntry) (id : ℕ)
      → OneJob s
      → find_job src s.jobs ≡ some id
      → Memᴰ e (C.entries s.cron)
      → (e.0 ≢ id) ↔ (source_of e ≢ src)
  same_job src s e id inv found m =
      let (schedule, mine) = inv.entry_of src id found in
      let h = inv.job_of e m in
      (
        λ n same. n (let h' : find_job src s.jobs ≡ some e.0 = rw same at h in cc),
        λ n same. n (inv.same_source e (id, (schedule, src)) m mine same),
      )

  unregister_absent :
      (src : Uuid) (s : Scheduler C) → find_job src s.jobs ≡ none → unregister C src s ≡ s
  unfolding unregister
  unregister_absent src s e = rw (e, unregister) refl

  unregister_found :
      (src : Uuid) (s : Scheduler C) (id : ℕ)
      → find_job src s.jobs ≡ some id
      → unregister C src s ≡ record { cron = C.remove id s.cron; jobs = delete_job src s.jobs }
  unfolding unregister
  unregister_found src s id e = rw (e, unregister) refl

  unregister-mem :
      (src : Uuid) (s : Scheduler C) (e : CronEntry)
      → OneJob s
      → Memᴰ e (C.entries (unregister C src s).cron) ↔ Without src s e
  unregister-mem src s e inv = elim (Option-cases (find_job src s.jobs)) [
    | inl absent ↦
        rw (unregister_absent src s absent) (λ m. (m, other_source src s e inv absent m), λ h. h.0)
    | inr (id, found) ↦
        rw (unregister_found src s id found)
          (ground (arith, C.remove_mem id s.cron e, same_job src s e id inv found))
  ]

  unregister-jobs :
      (src y : Uuid) (s : Scheduler C)
      → y ≢ src
      → find_job y (unregister C src s).jobs ≡ find_job y s.jobs
  unregister-jobs src y s n = elim (Option-cases (find_job src s.jobs)) [
    | inl absent ↦ rw (unregister_absent src s absent) refl
    | inr (id, found) ↦ rw (unregister_found src s id found) (find_job-delete_other src y s.jobs n)
  ]

  unregister-none : (src : Uuid) (s : Scheduler C) → find_job src (unregister C src s).jobs ≡ none
  unregister-none src s = elim (Option-cases (find_job src s.jobs)) [
    | inl absent ↦ rw (unregister_absent src s absent) absent
    | inr (id, found) ↦ rw (unregister_found src s id found) (find_job-delete_same src s.jobs)
  ]

  -- The old job goes and the new entry stays.
  renew-mem :
      (src : Uuid) (schedule : Text) (s : Scheduler C) (c : C.Table) (id : ℕ) (e : CronEntry)
      → OneJob s
      → C.add schedule src s.cron ≡ ok (c, id)
      → Memᴰ e (C.entries (unregister C src (record { cron = c; jobs = s.jobs })).cron)
        ↔ ((e ≡ (id, (schedule, src))) ⊎ Without src s e)
  renew-mem src schedule s c id e inv h =
      let both = C.add_mem schedule src s.cron c id h e in
      elim (Option-cases (find_job src s.jobs)) [
        | inl absent ↦
            rw (unregister_absent src (record { cron = c; jobs = s.jobs }) absent)
              (ground (arith, both, other_source src s e inv absent))
        | inr (old, found) ↦
            let (was, mine) = inv.entry_of src old found in
            let fresh = C.add_fresh schedule src s.cron c id h (old, (was, src)) mine in
            rw (unregister_found src (record { cron = c; jobs = s.jobs }) old found)
              (ground (arith, both, C.remove_mem old c e, same_job src s e old inv found, fresh))
      ]

  pub unregister-OneJob : (src : Uuid) (s : Scheduler C) → OneJob s → OneJob (unregister C src s)
  unregister-OneJob src s inv = record {
    job_of = λ e m.
        (let (was, other) = (unregister-mem src s e inv).0 m in
          unregister-jobs src (source_of e) s other ∙ inv.job_of e was);
    entry_of = λ y id found. elim (Bool-cases (y == src)) [
      | inl same ↦
          let still : find_job src (unregister C src s).jobs ≡ some id =
            rw ((nat_beq_iff y src).0 same) at found in
          let gone = unregister-none src s in absurd (cc)
      | inr other ↦
          (let n : y ≢ src = λ k. absurd (ground (arith, nat_beq_iff y src)) in
            let (schedule, m) = inv.entry_of y id (sym (unregister-jobs src y s n) ∙ found) in
            (schedule, (unregister-mem src s (id, (schedule, y)) inv).1 (m, n)))
    ];
    same_source = λ e f m k.
        inv.same_source e f ((unregister-mem src s e inv).0 m).0
          ((unregister-mem src s f inv).0 k).0;
  }

  -- A scheduler in which the source's one entry is the one just added.
  renewed : (src : Uuid) (s : Scheduler C) (c : C.Table) (id : ℕ) → Scheduler C
  renewed src s c id =
      let s1 = unregister C src (record { cron = c; jobs = s.jobs }) in
      record { cron = s1.cron; jobs = (src, id) ∷ s1.jobs }

  module _ (src : Uuid) (schedule : Text) (s : Scheduler C) (c : C.Table) (id : ℕ) (inv : OneJob s)
      (added : C.add schedule src s.cron ≡ ok (c, id)) where
    later_job : (y : Uuid) → y ≢ src → find_job y (renewed src s c id).jobs ≡ find_job y s.jobs
    unfolding renewed
    later_job y n = find_job_later src y id _ n ∙ unregister-jobs src y _ n

    job_of_renewed :
        (e : CronEntry)
        → ((e ≡ (id, (schedule, src))) ⊎ Without src s e)
        → find_job (source_of e) (renewed src s c id).jobs ≡ some e.0
    unfolding renewed
    job_of_renewed e (inl new) = rw new (find_job_head src id _)
    job_of_renewed e (inr (was, other)) = later_job (source_of e) other ∙ inv.job_of e was

    same_source_renewed :
        (e f : CronEntry)
        → ((e ≡ (id, (schedule, src))) ⊎ Without src s e)
        → ((f ≡ (id, (schedule, src))) ⊎ Without src s f)
        → e.0 ≡ f.0
        → source_of e ≡ source_of f
    same_source_renewed e f (inl new) (inl new') same = rw (new, new') refl
    same_source_renewed e f (inl new) (inr (was, other)) same =
        absurd (C.add_fresh schedule src s.cron c id added f was (sym same ∙ ap (λ x. x.0) new))
    same_source_renewed e f (inr (was, other)) (inl new) same =
        absurd (C.add_fresh schedule src s.cron c id added e was (same ∙ ap (λ x. x.0) new))
    same_source_renewed e f (inr (was, _)) (inr (was', _)) same = inv.same_source e f was was' same

    entry_of_renewed :
        (y : Uuid) (i : ℕ)
        → find_job y (renewed src s c id).jobs ≡ some i
        → (was : Text) × Memᴰ (i, (was, y)) (C.entries (renewed src s c id).cron)
    unfolding renewed
    entry_of_renewed y i found = elim (Bool-cases (y == src)) [
      | inl same ↦
          let at_src : y ≡ src = (nat_beq_iff y src).0 same in
          let mine : find_job src (renewed src s c id).jobs ≡ some i = rw at_src at found in
          let head : find_job src (renewed src s c id).jobs ≡ some id = find_job_head src id _ in
          (schedule, (renew-mem src schedule s c id (i, (schedule, y)) inv added).1 (inl (cc)))
      | inr other ↦
          let n : y ≢ src = λ k. absurd (ground (arith, nat_beq_iff y src)) in
          let (was, m) = inv.entry_of y i (sym (later_job y n) ∙ found) in
          (was, (renew-mem src schedule s c id (i, (was, y)) inv added).1 (inr (m, n)))
    ]

    renewed-OneJob : OneJob (renewed src s c id)
    unfolding renewed
    renewed-OneJob = record {
      job_of = λ e m. job_of_renewed e ((renew-mem src schedule s c id e inv added).0 m);
      entry_of = entry_of_renewed;
      same_source = λ e f m k.
          same_source_renewed e f ((renew-mem src schedule s c id e inv added).0 m)
            ((renew-mem src schedule s c id f inv added).0 k);
    }

  -- What registering leaves: the source has the new entry and no other, and the entries of all other
  -- sources are as they were.
  pub register-mem :
      (src : Uuid) (schedule : Text) (s s' : Scheduler C)
      → OneJob s
      → register C src schedule s ≡ ok s'
      → OneJob s'
        × ((id : ℕ) × ((e : CronEntry)
              → Memᴰ e (C.entries s'.cron) ↔ ((e ≡ (id, (schedule, src))) ⊎ Without src s e)))
  unfolding register renewed
  register-mem src schedule s s' inv h =
      let ((c, id), added, last) = >>=-eq-ok (C.add schedule src s.cron) _ h in
      let same : renewed src s c id ≡ s' = ok-inj last in
      (
        subst OneJob same (renewed-OneJob src schedule s c id inv added),
        (
          id,
          λ e.
              subst
                (λ (x : Scheduler C).
                  Memᴰ e (C.entries x.cron) ↔ ((e ≡ (id, (schedule, src))) ⊎ Without src s e))
                same (renew-mem src schedule s c id e inv added),
        ),
      )

  pub register_all-OneJob :
      (srcs : List Source) (s : Scheduler C) → OneJob s → OneJob (register_all C srcs s)
  unfolding register_all
  register_all-OneJob [] s inv = inv
  register_all-OneJob (src ∷ srcs) s inv = elim (Bool-cases (is_empty src.schedule)) [
    | inl none_set ↦ rw (none_set, register_all) (register_all-OneJob srcs s inv)
    | inr has_one ↦ elim (Result-cases (register C src.id src.schedule s)) [
      | inl (s', e) ↦
          rw (has_one, e, register_all)
            (register_all-OneJob srcs s' (register-mem src.id src.schedule s s' inv e).0)
      | inr (why, e) ↦ rw (has_one, e, register_all) (register_all-OneJob srcs s inv)
    ]
  ]
