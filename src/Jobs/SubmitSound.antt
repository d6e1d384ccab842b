-- ===== src/Jobs/SubmitSound.antt =====
-- About orchestrator/jobs.py `_submit`: the invariant of Jobs/Sound after a submission.
use mathlib.Core.Path.{subst}
use agentic_ai_model_adaptat.Prelude.{
  ℕ, ◌≡◌, sym, ◌∙◌, ap, ◌≢◌, ◌⊎◌, inl, inr, none, some, arith, ◌==◌, Bool-cases, ==→eq,
}
use agentic_ai_model_adaptat.Jobs.Rows.{Job, Db}
use agentic_ai_model_adaptat.Jobs.Tables.{
  find, put, insert, find_key, find-put_self, find-put_ne, find-insert_old, find-insert_new,
  find-insert_cases, find_key-none,
}
use agentic_ai_model_adaptat.Jobs.Locks.{holder}
use agentic_ai_model_adaptat.Jobs.Evolve.{Evolved, Evolves}
use agentic_ai_model_adaptat.Jobs.LockTaken.{Locked}
use agentic_ai_model_adaptat.Jobs.Sound.{IsSound, Evolved-live}

-- A database in which the new job `w` was queued, over the rows that were there.
module _ (db d : Db) (j w : Job) (d' : Db) (missing : find j.job_id db.jobs ≡ none)
    (locked : Locked j.model_id j.job_id (record db { jobs = insert j db.jobs }) d)
    (grown : Evolved j w) (jobs' : d'.jobs ≡ put w d.jobs) (locks' : d'.locks ≡ d.locks) where
  there : (b : Job) × (find w.job_id d.jobs ≡ some b)
  there =
      let new = find-insert_new j.job_id j db.jobs missing in
      let found : find j.job_id (insert j db.jobs) ≡ some j = ground (arith, new) in
      let (b, eb, jb) = locked.evolves j.job_id j found in
      (b, subst (λ n. find n d.jobs ≡ some b) (sym grown.same_id) eb)

  -- The rows that were there evolve.
  pub queued-Evolves : Evolves db.jobs d'.jobs
  queued-Evolves k a ea =
      let (b, eb, ab) = locked.evolves k a (find-insert_old k j db.jobs ea) in
      let other : k ≢ w.job_id = λ q. cc (missing, ea, q, grown.same_id) in
      (b, cc (ap (find k) jobs', find-put_ne k w d.jobs other, eb), ab)

  -- A row of the new database is the new job, or an evolved old row that `d` has too.
  queued-cases :
      (k : ℕ) (x : Job)
      → find k d'.jobs ≡ some x
      → ((k ≡ j.job_id) × (x ≡ w))
        ⊎ ((a : Job) × (find k db.jobs ≡ some a)
            × Evolved a x
            × (find k d.jobs ≡ some x)
            × (k ≢ j.job_id))
  queued-cases k x ex = elim (Bool-cases (k == w.job_id)) [
    | inl own ↦
        let kw = ==→eq k w.job_id own in
        inl (kw ∙ grown.same_id, cc (find-put_self w d.jobs there.1, ap (find k) jobs', kw, ex))
    | inr other ↦
        let ne : k ≢ w.job_id = λ q. ground arith in
        let ed : find k d.jobs ≡ some x = cc (find-put_ne k w d.jobs ne, ap (find k) jobs', ex) in
        let (a, ea, ax) = locked.comes k x ed in
        elim (find-insert_cases k j db.jobs ea) [
          | inl old ↦ inr (a, old, ax, ed, λ q. ne (q ∙ sym grown.same_id))
          | inr (q, _) ↦ absurd (ne (q ∙ sym grown.same_id))
        ]
  ]

  pub queued-IsSound : find_key j.idempotency_key db.jobs ≡ none → IsSound db → IsSound d'
  queued-IsSound unseen s = record {
    keys = λ k l x y ex ey same. elim (queued-cases k x ex) [
      | inl (kj, xw) ↦ elim (queued-cases l y ey) [
        | inl (lj, yw) ↦ kj ∙ sym lj
        | inr (b, eb, bY, _, _) ↦ absurd (
            find_key-none j.idempotency_key db.jobs l unseen eb
              (sym bY.same_key ∙ sym same ∙ ap (λ z. z.idempotency_key) xw ∙ grown.same_key))
      ]
      | inr (a, ea, aX, _, _) ↦ elim (queued-cases l y ey) [
        | inl (lj, yw) ↦ absurd (
            find_key-none j.idempotency_key db.jobs k unseen ea
              (sym aX.same_key ∙ same ∙ ap (λ z. z.idempotency_key) yw ∙ grown.same_key))
        | inr (b, eb, bY, _, _) ↦ s.keys k l a b ea eb (sym aX.same_key ∙ same ∙ bY.same_key)
      ]
    ];
    locked = λ k x ex live. elim (queued-cases k x ex) [
      | inl (kj, xw) ↦ cc (
        ap (λ z. z.model_id) xw,
        grown.same_model,
        ap (holder x.model_id) locks',
        locked.mine,
        kj,
      )
      | inr (a, ea, aX, ed, ne) ↦
          let held = s.locked k a ea (Evolved-live a x aX live) in
          elim (Bool-cases (a.model_id == j.model_id)) [
            | inl same ↦
                let am = ==→eq a.model_id j.model_id same in
                elim (locked.former k (subst (λ m. holder m db.locks ≡ some k) am held)) [
                  | inl own ↦ absurd (ne own)
                  | inr ended ↦ cc (ended x ed, live)
                ]
            | inr apart ↦ cc (
              locked.others a.model_id (λ q. ground arith),
              held,
              aX.same_model,
              ap (holder a.model_id) locks',
            )
          ]
    ];
  }
