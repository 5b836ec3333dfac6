-- ===== src/LongHorizon/Renewals.antt =====
-- Renewals and pauses of a session, any number of them.
use teti_bot.LongHorizon.{
  working, input_required, paused, LongHorizonState, SessionAction, SessionActor, SessionError,
  SessionPhase, maximum_lifetime_ms, maximum_renewal_ms, maximum_renewals,
}
use teti_bot.Base.{
  ℕ, suc, ◌+◌, ◌≤◌, String, ◌≡◌, sym, ap, ◌∙◌, true, false, not, ◌||◌, Option, some, List, [], ◌∷◌,
  arith, number_equality, text_equality, Result, ok, ◌>>=◌, fail_if->>-eq-ok, ok_injective, subst,
}
use teti_bot.Base.{leb, ltb, length, >>=-eq-ok, >>-eq-ok}
use teti_bot.LongHorizon.Session.{
  Clock, append_event, pause_session, renew_session, paused_from, is_boundary, require,
  exceeds_lifetime, later, require_incoming,
}

pub data Call : Type 0 where
  renew : (now ttl : ℕ) → Call
  pause : (now : ℕ) → Call

unfoldable pub perform_call :
    Clock → (created_at : String) → Call → LongHorizonState → Result SessionError LongHorizonState
perform_call clock created_at (renew now ttl) session =
    renew_session clock created_at now ttl session
perform_call clock created_at (pause now) session = pause_session clock now session

unfoldable pub perform_calls :
    Clock
    → (created_at : String) → List Call
    → LongHorizonState
    → Result SessionError LongHorizonState
perform_calls clock created_at [] session = ok session
perform_calls clock created_at (call ∷ calls) session = do
  new ← perform_call clock created_at call session
  perform_calls clock created_at calls new

abbrev pub renewals : List Call → ℕ
renewals [] = 0
renewals (renew now ttl ∷ calls) = suc (renewals calls)
renewals (pause now ∷ calls) = renewals calls

-- The session expires within the lifetime of its request, and was renewed eight times at most.
pub record IsBounded (clock : Clock) (created : ℕ) (session : LongHorizonState) : Type 0 where
  pub few : session.renewal_count ≤ 8
  pub expiry : ℕ
  pub expires : clock.parse session.continuation_expires_at ≡ some expiry
  pub within : expiry ≤ created + maximum_lifetime_ms

appended_lem :
    (clock : Clock) (action : SessionAction) (actor : SessionActor) (stage revision : Option ℕ)
    (timestamp : String) (session new : LongHorizonState)
    → append_event clock action actor stage revision timestamp session ≡ ok new
    → (new.renewal_count ≡ session.renewal_count)
      × (new.continuation_expires_at ≡ session.continuation_expires_at)
unfolding append_event
appended_lem clock action actor stage revision timestamp session new run =
    let (room, made) = fail_if->>-eq-ok (leb 256 (length session.audit)) _ _ run in
    let same = ok_injective made in
    (ap (λ s. s.renewal_count) (sym same), ap (λ s. s.continuation_expires_at) (sym same))

paused_lem :
    (clock : Clock) (timestamp : String) (session new : LongHorizonState) (phase : SessionPhase)
    → paused_from clock timestamp session phase ≡ ok new
    → (new.renewal_count ≡ session.renewal_count)
      × (new.continuation_expires_at ≡ session.continuation_expires_at)
paused_lem clock timestamp session new working run =
    appended_lem clock _ _ _ _ timestamp (record session { pause_requested = true }) new run
paused_lem clock timestamp session new input_required run =
    appended_lem clock _ _ _ _ timestamp (record session { phase = paused }) new run
paused_lem clock timestamp session new paused run =
    let same = ok_injective run in
    (ap (λ s. s.renewal_count) (sym same), ap (λ s. s.continuation_expires_at) (sym same))
paused_lem clock timestamp session new _ run = cc

pause_session_lem :
    (clock : Clock) (now : ℕ) (session new : LongHorizonState)
    → pause_session clock now session ≡ ok new
    → (new.renewal_count ≡ session.renewal_count)
      × (new.continuation_expires_at ≡ session.continuation_expires_at)
unfolding pause_session
pause_session_lem clock now session new run =
    let (_, after_guard) = >>-eq-ok (require_incoming clock now session) _ run in
    let (mid, made, last) =
      >>=-eq-ok (paused_from clock (clock.iso now) session session.phase) _ after_guard in
    let (count, expiry) = paused_lem clock (clock.iso now) session mid session.phase made in
    let same = ok_injective last in
    (
      ap (λ s. s.renewal_count) (sym same) ∙ count,
      ap (λ s. s.continuation_expires_at) (sym same) ∙ expiry,
    )

not_exceeded :
    (created next : ℕ)
    → exceeds_lifetime (some created) next ≡ false
    → next ≤ created + maximum_lifetime_ms
not_exceeded created next h = ground arith

-- A renewal that succeeds.
renew_session_lem :
    (clock : Clock) (created_at : String) (created now ttl : ℕ) (session new : LongHorizonState)
    → ((time : ℕ) → clock.parse (clock.iso time) ≡ some time)
    → clock.parse created_at ≡ some created
    → renew_session clock created_at now ttl session ≡ ok new
    → IsBounded clock created new × (new.renewal_count ≡ suc session.renewal_count)
unfolding renew_session
renew_session_lem clock created_at created now ttl session new reads at run =
    let (_, after_guard) = >>-eq-ok (require_incoming clock now session) _ run in
    let (boundary, after_boundary) =
      fail_if->>-eq-ok (not (is_boundary session.phase)) _ _ after_guard in
    let (limits, after_limits) =
      fail_if->>-eq-ok
        (ltb ttl 60000 || ltb maximum_renewal_ms ttl || leb maximum_renewals session.renewal_count)
        _ _ after_boundary in
    let (current, _, after_current) =
      >>=-eq-ok (require (clock.parse session.continuation_expires_at)) _ after_limits in
    let (fits, made) =
      fail_if->>-eq-ok (exceeds_lifetime (clock.parse created_at) (later now current + ttl)) _ _
        after_current in
    let (count, expiry) = appended_lem clock _ _ _ _ (clock.iso now) _ new made in
    let few : session.renewal_count ≤ 7 = ground arith in
    let one_more : new.renewal_count ≡ suc session.renewal_count = ground arith in
    let fits_there = subst (λ o. exceeds_lifetime o (later now current + ttl) ≡ false) at fits in
    (
      record {
        few = rw one_more (ground arith);
        expiry = later now current + ttl;
        expires = ap clock.parse expiry ∙ reads (later now current + ttl);
        within = not_exceeded created (later now current + ttl) fits_there;
      },
      one_more,
    )

-- Whatever renewals and pauses a session goes through, it expires within seven days of its request's
-- creation, it counts each renewal, and there are eight at most, provided that this holds of the session at
-- first, that the request's time of creation is one, and that a time is read back as it was written.
pub perform_calls-IsBounded :
    (clock : Clock) (created_at : String) (created : ℕ) (calls : List Call)
    (session new : LongHorizonState)
    → ((time : ℕ) → clock.parse (clock.iso time) ≡ some time)
    → clock.parse created_at ≡ some created
    → IsBounded clock created session
    → perform_calls clock created_at calls session ≡ ok new
    → IsBounded clock created new × (new.renewal_count ≡ session.renewal_count + renewals calls)
unfolding perform_calls perform_call
perform_calls-IsBounded clock created_at created [] session new reads at bounded run =
    let same = ok_injective run in
    let count = ap (λ s. s.renewal_count) (sym same) in
    (subst (IsBounded clock created) same bounded, ground arith)
perform_calls-IsBounded clock created_at created (renew now ttl ∷ calls) session new reads at
      bounded run =
    let (mid, first, rest) = >>=-eq-ok (renew_session clock created_at now ttl session) _ run in
    let (still, count) =
      renew_session_lem clock created_at created now ttl session mid reads at first in
    let (after_all, counted) =
      perform_calls-IsBounded clock created_at created calls mid new reads at still rest in
    (after_all, ground arith)
perform_calls-IsBounded clock created_at created (pause now ∷ calls) session new reads at bounded
      run =
    let (mid, first, rest) = >>=-eq-ok (pause_session clock now session) _ run in
    let (count, expiry) = pause_session_lem clock now session mid first in
    let still : IsBounded clock created mid = record {
      few = rw count bounded.few;
      expiry = bounded.expiry;
      expires = ap clock.parse expiry ∙ bounded.expires;
      within = bounded.within;
    } in
    let (after_all, counted) =
      perform_calls-IsBounded clock created_at created calls mid new reads at still rest in
    (after_all, counted ∙ ap (λ n. n + renewals calls) count)
