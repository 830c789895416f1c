-- ===== src/Session/Orderly.antt =====
-- src/app_state.rs: the slots of the three transports before and after an operation, and the log of
-- what it did.
pub mod Clear
pub mod Connect
pub mod Command
use Prim.Native.String.{String}
use clankvox.Base.{
  ℕ, Bool, true, false, ◌||◌, Option, none, some, List, [], ◌∷◌, ◌++◌, ◌≡◌, refl, sym, ap, ◌∙◌, ◌⊎◌,
  inl, inr, arith, ◌==◌, append_assoc, append-nil, Bool-cases,
}
use clankvox.Session.State.{AppState, Effect, shutdown}

abbrev pub is_shutdown : ℕ → Effect → Bool
is_shutdown conn (shutdown other) = other == conn
is_shutdown conn _ = false

-- Whether a log shuts the connection down.
unfoldable pub shuts : ℕ → List Effect → Bool
shuts conn [] = false
shuts conn (e ∷ log) = is_shutdown conn e || shuts conn log

-- A slot before and after: what was in it is still there, or was shut down.
abbrev pub Closed : Option ℕ → Option ℕ → List Effect → Type 0
Closed none after log = Unit
Closed (some conn) after log = (after ≡ some conn) ⊎ (shuts conn log ≡ true)

pub record Orderly (s t : AppState) : Type 0 where
  pub log : List Effect
  pub appended : t.out ≡ s.out ++ log
  pub voice_closed : Closed s.voice_conn t.voice_conn log
  pub watch_closed : Closed s.stream_watch_conn t.stream_watch_conn log
  pub publish_closed : Closed s.stream_publish_conn t.stream_publish_conn log

pub shuts-append :
    (conn : ℕ) (a b : List Effect) → shuts conn (a ++ b) ≡ (shuts conn a || shuts conn b)
unfolding shuts
shuts-append conn [] b = refl
shuts-append conn (e ∷ a) b = ground (arith, shuts-append conn a b)

pub Closed-refl : (slot : Option ℕ) (log : List Effect) → Closed slot slot log
Closed-refl none log = tt
Closed-refl (some conn) log = inl refl

pub Closed-trans :
    (a b c : Option ℕ) (l m : List Effect) → Closed a b l → Closed b c m → Closed a c (l ++ m)
Closed-trans none b c l m h k = tt
Closed-trans (some conn) b c l m (inr shut) k = inr (ground (arith, shuts-append conn l m))
Closed-trans (some conn) none c l m (inl kept) k = absurd (ground arith)
Closed-trans (some conn) (some other) c l m (inl kept) k = elim k [
  | inl still ↦ inl (still ∙ kept)
  | inr shut ↦ inr (ground (arith, shuts-append conn l m))
]

pub Orderly-refl : (s : AppState) → Orderly s s
Orderly-refl s = record {
  log = [];
  appended = sym (append-nil s.out);
  voice_closed = Closed-refl s.voice_conn [];
  watch_closed = Closed-refl s.stream_watch_conn [];
  publish_closed = Closed-refl s.stream_publish_conn [];
}

pub Orderly-trans : {s t u : AppState} → Orderly s t → Orderly t u → Orderly s u
Orderly-trans {s = s} {t = t} {u = u} h k = record {
  log = h.log ++ k.log;
  appended = k.appended ∙ (ap (λ o. o ++ k.log) h.appended ∙ append_assoc s.out h.log k.log);
  voice_closed =
      Closed-trans s.voice_conn t.voice_conn u.voice_conn h.log k.log h.voice_closed k.voice_closed;
  watch_closed =
      Closed-trans s.stream_watch_conn t.stream_watch_conn u.stream_watch_conn h.log k.log
        h.watch_closed k.watch_closed;
  publish_closed =
      Closed-trans s.stream_publish_conn t.stream_publish_conn u.stream_publish_conn h.log k.log
        h.publish_closed k.publish_closed;
}
