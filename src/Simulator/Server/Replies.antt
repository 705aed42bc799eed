-- ===== src/Simulator/Server/Replies.antt =====
-- internal/simulator/server.go: what the control server does to the engine and what it tells of it.
use noapp.Prelude.{
  ℕ, ◌≤◌, String, Bool, true, false, Option, none, some, length, leb, if◌then◌else◌, ◌≡◌, refl, ◌⊎◌,
  inl, inr, Option-cases, arith,
}
use noapp.Json.{Payload}
use noapp.Simulator.{Engine, new_engine, start, stop, set_speed}
use noapp.Simulator.Status.{Status, status_of}
use noapp.Simulator.Invariant.{sum_counts}
use noapp.Simulator.Safety.{Stage, Step, Reach, next, starts, stops, speeds, Reach-Limits}
use noapp.Simulator.Server.{
  note, snapshot, file, ControlReply, Control, snapshot_reply, error_reply, start_reply,
  speed_reply, speed_input, serve_start, serve_stop, serve_speed, serve_control,
}

-- A step from the engine at any stage of a run.
abbrev Continues : {F : Type 0} → Control F → Engine F → Engine F → Type 0
Continues k e e' = (s : Stage) → (t : Stage) × Step k.low k.high e s e' t

-- The engine stays, or a step of it is made; it stays with an error; and a snapshot is one of the
-- engine after the request.
record Told {F : Type 0} (k : Control F) (e : Engine F) (x : Engine F × ControlReply F)
    : Type 0 where
  step : (x.0 ≡ e) ⊎ Continues k e x.0
  refused : leb 400 x.1.status ≡ true → x.0 ≡ e
  told : (s : Status F) → x.1.body ≡ snapshot s → s ≡ status_of k.base k.times x.0

module _ {F : Type 0} (k : Control F) where
  snapshot-Told :
      (status : ℕ) (e e' : Engine F)
      → leb 400 status ≡ false
      → (e' ≡ e) ⊎ Continues k e e'
      → Told k e (e', snapshot_reply k status e')
  snapshot-Told status e e' fine step = record {
    step = step;
    refused = λ h. absurd (cc);
    told = λ s h. ground arith;
  }

  error-Told : (status : ℕ) (text : String) (e : Engine F) → Told k e (e, error_reply k status text)
  error-Told status text e = record {
    step = inl refl;
    refused = λ h. refl;
    told = λ s h. absurd (cc);
  }

  serve_start-Told : (e : Engine F) → Told k e (serve_start k e)
  unfolding serve_start start_reply start
  serve_start-Told e = go k.health
    where
      go :
          (health : Option String)
          → Told k e (start_reply k health (start health k.session k.now e).0)
      go (some text) = error-Told 503 _ e
      go none = snapshot-Told 202 e _ refl (inr (λ s. (_, starts none k.session k.now)))

  serve_stop-Told : (e : Engine F) → Told k e (serve_stop k e)
  unfolding serve_stop
  serve_stop-Told e = snapshot-Told 200 e (stop e) refl (inr (λ s. (s, stops)))

  note-Told :
      (status : ℕ) (key text : String) (e : Engine F)
      → Told k e (e, record { status = status; body = note key text })
  note-Told status key text e = record {
    step = inl refl;
    refused = λ h. refl;
    told = λ s h. absurd (cc);
  }

  file-Told :
      (status : ℕ) (text : String) (e : Engine F)
      → Told k e (e, record { status = status; body = file text })
  file-Told status text e = record {
    step = inl refl;
    refused = λ h. refl;
    told = λ s h. absurd (cc);
  }

  speed_reply-Told :
      (e : Engine F) (x : Engine F × Bool)
      → Continues k e x.0
      → (x.1 ≡ false → x.0 ≡ e)
      → Told k e (speed_reply k x)
  unfolding speed_reply
  speed_reply-Told e (e', true) step same = snapshot-Told 200 e e' refl (inr step)
  speed_reply-Told e (e', false) step same = record {
    step = inr step;
    refused = λ h. same refl;
    told = λ s h. absurd (cc);
  }

  refused_speed :
      (speed : F) (e : Engine F)
      → (set_speed k.low k.high speed e).1 ≡ false
      → (set_speed k.low k.high speed e).0 ≡ e
  unfolding set_speed
  refused_speed speed e h = ground arith

  serve_speed-Told : (body : Payload) (e : Engine F) → Told k e (serve_speed k body e)
  unfolding serve_speed
  serve_speed-Told body e = elim (Option-cases (speed_input k body)) [
    | inl bad ↦ rw (serve_speed, bad) (error-Told 400 _ e)
    | inr (speed, good) ↦
        rw (serve_speed, good)
          (speed_reply-Told e _ (λ s. (s, speeds speed)) (refused_speed speed e))
  ]

  if-Told :
      (b : Bool) (e : Engine F) (x y : Engine F × ControlReply F)
      → Told k e x
      → Told k e y
      → Told k e (if b then x else y)
  if-Told true e x y h l = h
  if-Told false e x y h l = l

  serve_control-Told :
      (method path : String) (body : Payload) (e : Engine F)
      → Told k e (serve_control k method path body e)
  unfolding serve_control
  serve_control-Told method path body e = if-Told _ e _ _ (note-Told 200 _ _ e) (
      if-Told _ e _ _ (snapshot-Told 200 e e refl (inl refl)) (
        if-Told _ e _ _ (serve_start-Told e) (
          if-Told _ e _ _ (serve_stop-Told e)
            (if-Told _ e _ _ (serve_speed-Told body e) (file-Told _ _ e)))))

-- Within the limits of the engine, with counters that agree.
abbrev pub WithinLimits : {F : Type 0} → Status F → Type 0
WithinLimits s =
    (s.teams ≤ 5)
    × (s.projects ≤ 10)
    × (s.stats.errors ≤ s.stats.total_actions)
    × (sum_counts s.stats.actions ≡ s.stats.total_actions)
    × (length s.recent ≤ 30)

status_of-WithinLimits :
    {F : Type 0} (low high : F → Bool) (base : F) (times : F → F → F) (speed : F) (e : Engine F)
    → Reach low high (new_engine speed) e
    → WithinLimits (status_of base times e)
unfolding status_of
status_of-WithinLimits low high base times speed e r =
    let (i, ten) = Reach-Limits low high speed e r in (i.five, ten, i.errors, i.summed, i.kept)

module _ {F : Type 0} (k : Control F) where
  step-Reach :
      (speed : F) (e e' : Engine F)
      → Reach k.low k.high (new_engine speed) e
      → (e' ≡ e) ⊎ Continues k e e'
      → Reach k.low k.high (new_engine speed) e'
  step-Reach speed e e' r (inl same) = rw same r
  step-Reach speed e e' (s, r) (inr step) = let (t, st) = step s in (t, next r st)

  -- For an engine in any of its histories, a request to the control server continues the history; a
  -- reply of status 400 or more has left the engine as it was; and a snapshot in a reply is one of
  -- the engine after the request, and within the limits: at most five teams, ten projects and thirty
  -- events, no more errors than actions, and counters of the actions that add up to the total.
  pub serve_control-Limits :
      (method path : String) (body : Payload) (speed : F) (e : Engine F)
      → Reach k.low k.high (new_engine speed) e
      → let (e', r) = serve_control k method path body e in
        Reach k.low k.high (new_engine speed) e'
        × (leb 400 r.status ≡ true → e' ≡ e)
        × ((s : Status F)
            → r.body ≡ snapshot s
            → (s ≡ status_of k.base k.times e') × WithinLimits s)
  serve_control-Limits method path body speed e reached =
      let t = serve_control-Told k method path body e in
      let later = step-Reach speed e _ reached t.step in
      (
        later,
        t.refused,
        λ s h. (
          t.told s h,
          rw (t.told s h) (status_of-WithinLimits k.low k.high k.base k.times speed _ later),
        ),
      )
