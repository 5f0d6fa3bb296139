-- ===== src/Server/Running/Refines.antt =====
-- The server with its sessions against the machine of its counters alone.
use hs_financial_services.Common.{
  ℕ, ◌-◌, ◌≤◌, ◌<◌, ◌≡◌, refl, ap, sym, ◌∙◌, subst, ◌⊎◌, Bool, true, false, inl, inr, List, ◌∷◌,
  ◌++◌, ◌==◌, ltb, if◌then◌else◌, Bool-cases, arith, ltb→lt,
}
use hs_financial_services.Session.{Session}
use hs_financial_services.Session.Close.{CalledOnce}
use hs_financial_services.Session.Shared.{update}
use hs_financial_services.Server
use hs_financial_services.Server.{
  ServerConfig, Server, Accept, waiting, admitted, counted, opened, numbered, Reach, begin, later,
  moves, closes, admits, counts, opens, numbers, starts,
}
use hs_financial_services.Server.Running.{
  Running, call_back, after_event, go_on, on_accept, open_ids, view,
}
use hs_financial_services.Server.Running.Open.{open_ids-cong, update-closed, open_ids-close}

-- Every callback has run if its session is closed, and none twice; the sessions to come are open.
pub record Sound {S : Type 0} (r : Running S) : Type 0 where
  pub called : (k : ℕ) → CalledOnce (r.sessions k)
  pub to_come : (k : ℕ) → r.made ≤ k → (r.sessions k).closed ≡ false

-- One operation of the counters' machine, or none.
abbrev pub Advances : Server → Server → Type 0
Advances s t = (s ≡ t) ⊎ Server.Step s t

moved : {s t : Server} {a : Accept} → s.accept ≡ a → Server.Move s a t → Advances s t
moved {s} {t} e m = inr (moves (subst (λ a. Server.Move s a t) (sym e) m))

calls_of :
    (s : Session) (b : Bool) → CalledOnce s → s.closed ≡ b → s.on_close_calls ≡ (if b then 1 else 0)
calls_of s b once e = once ∙ ap (λ (c : Bool). if c then 1 else 0) e

module _ {S : Type 0} where
  -- The session that the handler makes is the first of the open ones.
  starts-view :
      (id : ℕ) (r : Running S)
      → Sound r
      → record (view r) { accept = waiting; live = id ∷ (view r).live }
        ≡ view (go_on (numbered id) r)
  unfolding go_on
  starts-view id r v =
      let here : (r.made == r.made) ≡ true = ground arith in
      let ids = λ (k : ℕ). if k == r.made then id else r.ids k in
      let before =
        open_ids-cong r.made r.ids ids r.sessions r.sessions
          (λ j h. (let other : (j == r.made) ≡ false = ground arith in rw other refl, refl)) in
      let rest = open_ids r.made ids r.sessions in
      ap (λ (live : List ℕ). record (view r) { accept = waiting; live = live })
        (ap (◌∷◌ id) before
          ∙ ap (λ (b : Bool). (if b then id else r.ids r.made) ∷ rest) (sym here)
          ∙ sym (
              ap (λ (b : Bool). if b then rest else ids r.made ∷ rest)
                (v.to_come r.made (omega arith))))

  pub go_on-Advances :
      (a : Accept) (r : Running S) → Sound r → r.accept ≡ a → Advances (view r) (view (go_on a r))
  unfolding go_on
  go_on-Advances waiting r v e = inl refl
  go_on-Advances admitted r v e = moved e counts
  go_on-Advances counted r v e = moved e opens
  go_on-Advances opened r v e = moved e numbers
  go_on-Advances (numbered id) r v e =
      moved e (subst (Server.Move (view r) (numbered id)) (starts-view id r v) starts)

  pub on_accept-Advances :
      (a : Accept) (r : Running S) → r.accept ≡ a → Advances (view r) (view (on_accept a r))
  unfolding on_accept
  on_accept-Advances waiting r e = elim (Bool-cases (ltb r.active_connections r.max_connections)) [
    | inl room ↦ rw room (moved e (admits (ltb→lt _ _ room)))
    | inr full ↦ rw full (inl refl)
  ]
  on_accept-Advances admitted r e = inl refl
  on_accept-Advances counted r e = inl refl
  on_accept-Advances opened r e = inl refl
  on_accept-Advances (numbered id) r e = inl refl

  -- The counters' view behind an event of a session.
  view-after_event :
      (k : ℕ) (s : Session) (st : S) (r : Running S) (calls : ℕ) (live : List ℕ)
      → s.on_close_calls - (r.sessions k).on_close_calls ≡ calls
      → open_ids r.made r.ids (update k s r.sessions) ≡ live
      → view (after_event k s st r)
        ≡ record (view r) { active_connections = call_back calls r.active_connections; live = live }
  unfolding after_event
  view-after_event k s st r calls live e e' = λ i. record (view r) {
    active_connections = call_back (e i) r.active_connections;
    live = e' i;
  }

  unchanged :
      (k : ℕ) (s : Session) (st : S) (r : Running S) (b : Bool)
      → Sound r
      → CalledOnce s
      → (r.sessions k).closed ≡ b
      → s.closed ≡ b
      → view r ≡ view (after_event k s st r)
  unchanged k s st r b v once was now =
      let none_new : s.on_close_calls - (r.sessions k).on_close_calls ≡ 0 =
        omega (arith, calls_of s b once now, calls_of (r.sessions k) b (v.called k) was) in
      sym (
        view-after_event k s st r 0 (view r).live none_new (
          sym (
            open_ids-cong r.made r.ids r.ids r.sessions (update k s r.sessions)
              (λ j h. (refl, update-closed k j s r.sessions (now ∙ sym was))))))

  closing :
      (k : ℕ) (s : Session) (st : S) (r : Running S)
      → Sound r
      → k < r.made
      → CalledOnce s
      → (r.sessions k).closed ≡ false
      → s.closed ≡ true
      → Server.Step (view r) (view (after_event k s st r))
  closing k s st r v h once was now =
      let one : s.on_close_calls - (r.sessions k).on_close_calls ≡ 1 =
        omega (arith, calls_of s true once now, calls_of (r.sessions k) false (v.called k) was) in
      let (before, after, split, rest) = open_ids-close r.made k r.ids r.sessions s h was now in
      subst (Server.Step (view r)) (sym (view-after_event k s st r 1 (before ++ after) one rest))
        (closes (r.ids k) before after split)

  -- An event of a session is nothing to the counters unless it closes the session.
  pub after_event-Advances :
      (k : ℕ) (s : Session) (st : S) (r : Running S)
      → Sound r
      → k < r.made
      → CalledOnce s
      → ((r.sessions k).closed ≡ true → s.closed ≡ true)
      → Advances (view r) (view (after_event k s st r))
  after_event-Advances k s st r v h once stays = elim (Bool-cases (r.sessions k).closed) [
    | inl was ↦ inl (unchanged k s st r true v once was (stays was))
    | inr was ↦ elim (Bool-cases s.closed) [
      | inl now ↦ inr (closing k s st r v h once was now)
      | inr still ↦ inl (unchanged k s st r false v once was still)
    ]
  ]

  pub after_event-Sound :
      (k : ℕ) (s : Session) (st : S) (r : Running S)
      → Sound r
      → k < r.made
      → CalledOnce s
      → Sound (after_event k s st r)
  unfolding after_event
  after_event-Sound k s st r v h once = record {
    called = λ j. elim (Bool-cases (j == k)) [
      | inl same ↦ rw same once
      | inr other ↦ rw other (v.called j)
    ];
    to_come =
        λ j above. let other : (j == k) ≡ false = ground arith in rw other (v.to_come j above);
  }

  pub go_on-Sound : (a : Accept) (r : Running S) → Sound r → Sound (go_on a r)
  unfolding go_on
  go_on-Sound waiting r v = v
  go_on-Sound admitted r v = record { called = v.called; to_come = v.to_come }
  go_on-Sound counted r v = record { called = v.called; to_come = v.to_come }
  go_on-Sound opened r v = record { called = v.called; to_come = v.to_come }
  go_on-Sound (numbered id) r v = record {
    called = v.called;
    to_come = λ j above. v.to_come j (omega arith);
  }

  pub on_accept-Sound : (a : Accept) (r : Running S) → Sound r → Sound (on_accept a r)
  unfolding on_accept
  on_accept-Sound waiting r v = elim (Bool-cases (ltb r.active_connections r.max_connections)) [
    | inl room ↦ rw room (record { called = v.called; to_come = v.to_come })
    | inr full ↦ rw full v
  ]
  on_accept-Sound admitted r v = v
  on_accept-Sound counted r v = v
  on_accept-Sound opened r v = v
  on_accept-Sound (numbered id) r v = v
