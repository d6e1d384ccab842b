-- ===== src/Registry/ReadBack.antt =====
-- About `Deployer.split` of registry/deployment.py.
use mathlib.Core.Path.{subst}
use agentic_ai_model_adaptat.Prelude.{
  ℕ, zero, suc, ◌+◌, ◌≤◌, ◌<◌, ◌≡◌, refl, inl, inr, Bool, ◌⊎◌, true, false, ◌&&◌, ◌||◌, Option,
  some, leb, ◌==◌, ==→eq, is_some, Bool-cases, arith,
}
use agentic_ai_model_adaptat.Registry.Port.{
  Exn, deployment_error, is_adaptation, Try, gives, throws, Call, DeploymentTarget, DeploymentState,
  Systems, Laws,
}
use agentic_ai_model_adaptat.Registry.Deployer.{same_version, Deployer}
use agentic_ai_model_adaptat.Registry.Rules.{and_then_rule, same_version→eq}
use agentic_ai_model_adaptat.Registry.Split.{
  TrafficSplit, Splitter, Wanted, candidate_for, percent_for, wanted, matches, is_settled,
  read_back_until, read_back_split, with_splitter, split,
}

-- The split that was asked for, as the system reports it.
abbrev pub Reports : TrafficSplit → Wanted → Type 0
Reports s want =
    (s.stable ≡ some want.stable) × (s.candidate ≡ want.candidate) × (s.percent ≡ want.percent)

and_both : (a b : Bool) → (a && b) ≡ true → (a ≡ true) × (b ≡ true)
and_both true b h = (refl, h)
and_both false b h = cc

-- What the read-back of a split asks of a state and a split that it settles with.
abbrev pub SettlesWith : DeploymentState → TrafficSplit → Wanted → Type 0
SettlesWith st s want =
    (st.ready ≡ true)
    × ((is_some want.candidate ≡ true) ⊎ (st.version ≡ some want.stable))
    × Reports s want

or_either : (a b : Bool) → (a || b) ≡ true → (a ≡ true) ⊎ (b ≡ true)
or_either true b h = inl refl
or_either false b h = inr h

is_settled-SettlesWith :
    (st : DeploymentState) (s : TrafficSplit) (want : Wanted)
    → is_settled st s want ≡ true
    → SettlesWith st s want
is_settled-SettlesWith st s want h =
    let served = is_some want.candidate || same_version st.version (some want.stable) in
    let both = and_both (st.ready && served) (matches s want) h in
    let settled = and_both st.ready served (both.0) in
    let first =
      and_both (same_version s.stable (some want.stable))
        (same_version s.candidate want.candidate && s.percent == want.percent) (both.1) in
    let rest =
      and_both (same_version s.candidate want.candidate) (s.percent == want.percent) (first.1) in
    (
      settled.0,
      elim (or_either (is_some want.candidate) (same_version st.version (some want.stable))
          (settled.1)) [
            | inl shared ↦ inl shared
            | inr stable ↦ inr (same_version→eq st.version (some want.stable) stable)
          ],
      (
        same_version→eq s.stable (some want.stable) (first.0),
        same_version→eq s.candidate want.candidate (rest.0),
        ==→eq s.percent want.percent (rest.1),
      ),
    )

module _ {W : Type 0} (S : Systems W) (P : Splitter W) (d : Deployer) (model : ℕ)
    (want : Wanted) where
  -- The split `s` was read back, and `w` is the world after that: the serving system answered a state
  -- that is settled, then this split, and both are as asked for.
  abbrev pub WasRead : TrafficSplit → W → Type 0
  WasRead s w =
      (u : W) × (st : DeploymentState) × ((S.status model u).0 ≡ gives st)
      × (st.failed ≡ false)
      × ((P.traffic model (S.status model u).1).0 ≡ gives s)
      × (w ≡ (P.traffic model (S.status model u).1).1)
      × SettlesWith st s want

  -- One round of the loop.
  round_rule :
      (Q : Try TrafficSplit × W → Type 0) (fuel deadline : ℕ) (w : W)
      → ((e : Exn) → (S.status model w).0 ≡ throws e → Q (throws e, (S.status model w).1))
      → Q (throws deployment_error, (S.status model w).1)
      → Q (throws deployment_error, (P.traffic model (S.status model w).1).1)
      → ((e : Exn)
          → (P.traffic model (S.status model w).1).0 ≡ throws e
          → Q (throws e, (P.traffic model (S.status model w).1).1))
      → ((s : TrafficSplit)
          → WasRead s (P.traffic model (S.status model w).1).1
          → Q (gives s, (P.traffic model (S.status model w).1).1))
      → (S.clock (P.traffic model (S.status model w).1).1 < deadline
          → Q (
              read_back_until S P d fuel deadline model want
                (S.sleep d.poll_s (P.traffic model (S.status model w).1).1)))
      → Q (read_back_until S P d (suc fuel) deadline model want w)
  unfolding read_back_until
  round_rule Q fuel deadline w on_status on_failure on_late on_traffic on_settled on_wait =
      let w1 = (S.status model w).1 in
      and_then_rule Q (S.status model w) _
        (λ st reported. elim (Bool-cases st.failed) [
          | inl failed ↦ rw failed on_failure
          | inr running ↦ rw running (
              and_then_rule Q (P.traffic model w1) _
                (λ s read. elim (Bool-cases (is_settled st s want)) [
                  | inl settled ↦
                      let is = is_settled-SettlesWith st s want settled in
                      rw settled (on_settled s (w, st, reported, running, read, refl, is))
                  | inr moving ↦ elim (Bool-cases (leb deadline (S.clock (P.traffic model w1).1))) [
                    | inl late ↦ rw (moving, late) on_late
                    | inr early ↦ rw (moving, early) (on_wait ground arith)
                  ]
                ])
                on_traffic)
        ])
        on_status

  abbrev ReportsBack : Try TrafficSplit × W → Type 0
  ReportsBack r = (s : TrafficSplit) → r.0 ≡ gives s → WasRead s r.1

  read_back_until-ReportsBack :
      (fuel deadline : ℕ) (w : W) → ReportsBack (read_back_until S P d fuel deadline model want w)
  unfolding read_back_until
  read_back_until-ReportsBack zero deadline w = λ s h. cc
  read_back_until-ReportsBack (suc fuel) deadline w =
      round_rule ReportsBack fuel deadline w (λ e _ s h. cc) (λ s h. cc) (λ s h. cc) (λ e _ s h. cc)
        (λ s is s' h.
          let same : s ≡ s' = cc in
          subst (λ x. WasRead x (P.traffic model (S.status model w).1).1) same is)
        (λ _.
          read_back_until-ReportsBack fuel deadline
            (S.sleep d.poll_s (P.traffic model (S.status model w).1).1))

  -- The end of a loop: its last round began less than a poll interval after the deadline, and it came
  -- to a split or an AdaptationError.
  abbrev pub EndsBy : (deadline : ℕ) → Try TrafficSplit × W → Type 0
  EndsBy deadline r =
      ((u : W) × (S.clock u < deadline + d.poll_s)
        × ((r.1 ≡ (S.status model u).1) ⊎ (r.1 ≡ (P.traffic model (S.status model u).1).1)))
      × (((s : TrafficSplit) × (r.0 ≡ gives s))
          ⊎ ((e : Exn) × (r.0 ≡ throws e) × (is_adaptation e ≡ true)))

  -- What is relied on of `traffic` and of the sleep, besides `Laws`.
  pub record SplitClock : Type 0 where
    pub traffic_clock : (n : ℕ) (v : W) → S.clock v ≤ S.clock (P.traffic n v).1
    pub traffic_raises :
        (n : ℕ) (e : Exn) (v : W) → (P.traffic n v).0 ≡ throws e → is_adaptation e ≡ true
    pub sleeps : (s : ℕ) (v : W) → S.clock (S.sleep s v) ≡ S.clock v + s

  read_back_until-EndsBy :
      (L : Laws S) (C : SplitClock) (fuel deadline : ℕ) (w : W)
      → 0 < d.poll_s
      → S.clock w < deadline + d.poll_s
      → deadline ≤ S.clock w + fuel
      → EndsBy deadline (read_back_until S P d (suc fuel) deadline model want w)
  read_back_until-EndsBy L C zero deadline w pos begun enough =
      let w1 = (S.status model w).1 in
      let on1 = L.status_clock model w in
      let on2 = C.traffic_clock model w1 in
      round_rule (EndsBy deadline) zero deadline w
        (λ e h. ((w, begun, inl refl), inr (e, refl, L.status_raises model e w h)))
        ((w, begun, inl refl), inr (deployment_error, refl, refl))
        ((w, begun, inr refl), inr (deployment_error, refl, refl))
        (λ e h. ((w, begun, inr refl), inr (e, refl, C.traffic_raises model e w1 h)))
        (λ s _. ((w, begun, inr refl), inl (s, refl))) (λ early. absurd (omega arith))
  read_back_until-EndsBy L C (suc fuel) deadline w pos begun enough =
      let w1 = (S.status model w).1 in
      let w2 = (P.traffic model w1).1 in
      let on1 = L.status_clock model w in
      let on2 = C.traffic_clock model w1 in
      let slept = C.sleeps d.poll_s w2 in
      round_rule (EndsBy deadline) (suc fuel) deadline w
        (λ e h. ((w, begun, inl refl), inr (e, refl, L.status_raises model e w h)))
        ((w, begun, inl refl), inr (deployment_error, refl, refl))
        ((w, begun, inr refl), inr (deployment_error, refl, refl))
        (λ e h. ((w, begun, inr refl), inr (e, refl, C.traffic_raises model e w1 h)))
        (λ s _. ((w, begun, inr refl), inl (s, refl)))
        (λ early.
          read_back_until-EndsBy L C fuel deadline (S.sleep d.poll_s w2) pos (omega arith)
            (omega arith))

  -- The read-back of a split ends, with the split or an AdaptationError, and its last round begins less
  -- than a poll interval after the timeout. The poll interval is at least a tick, sleeps are as long as
  -- asked, and `traffic` raises AdaptationErrors only and does not turn the clock back.
  pub read_back_split-EndsBy :
      (L : Laws S) (C : SplitClock) (w : W)
      → 0 < d.poll_s
      → EndsBy (S.clock w + d.timeout_s) (read_back_split S P d model want w)
  unfolding read_back_split
  read_back_split-EndsBy L C w pos =
      read_back_until-EndsBy L C d.timeout_s (S.clock w + d.timeout_s) w pos (omega arith)
        (omega arith)

  pub read_back_split-ReportsBack : (w : W) → ReportsBack (read_back_split S P d model want w)
  unfolding read_back_split
  read_back_split-ReportsBack w =
      read_back_until-ReportsBack (suc d.timeout_s) (S.clock w + d.timeout_s) w

with_splitter-gives :
    {W T : Type 0} (B : Try T × W → Type 0) (splits : Bool) (call : Call W T) (w : W) (t : T)
    → ((call w).0 ≡ gives t → B (call w))
    → (with_splitter splits call w).0 ≡ gives t
    → B (with_splitter splits call w)
with_splitter-gives B true call w t then_is h = then_is h
with_splitter-gives B false call w t then_is h = cc

module _ {W : Type 0} (S : Systems W) (P : Splitter W) (d : Deployer) where
  -- A split that returns was read back from the system, which had taken it: after that, the system
  -- answered a state that is ready and not failed and then the returned split, whose stable version,
  -- candidate and share are those asked for; without a candidate it also serves the stable version.
  pub split-WasRead :
      (model : ℕ) (stable : DeploymentTarget) (candidate : Option DeploymentTarget) (percent : ℕ)
      (w : W) (s : TrafficSplit)
      → (split S P d model stable candidate percent w).0 ≡ gives s
      → ((P.set_traffic model stable
            (candidate_for candidate percent)
            (percent_for candidate percent)
            w).0
          ≡ gives tt)
        × WasRead S P d model
            (wanted stable candidate percent)
            s
            (split S P d model stable candidate percent w).1
  unfolding split
  split-WasRead model stable candidate percent w s =
      let want = wanted stable candidate percent in
      let setting =
        P.set_traffic model stable (candidate_for candidate percent) (percent_for candidate percent)
          w in
      with_splitter-gives (λ r. (setting.0 ≡ gives tt) × WasRead S P d model want s r.1)
        P.splits_traffic _ w s
        (and_then_rule
          (λ r. r.0 ≡ gives s → (setting.0 ≡ gives tt) × WasRead S P d model want s r.1) setting _
          (λ _ set h. (set, read_back_split-ReportsBack S P d model want (setting.1) s h))
          (λ e _ h. cc))
