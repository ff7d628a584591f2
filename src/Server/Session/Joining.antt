-- ===== src/Server/Session/Joining.antt =====
-- core/src/mc_server.c: handshakes and logins keep the session.
use mathlib.Core.Path.{subst}
use starrysky_mc_server.Prelude.{
  ℕ, ◌≤◌, ◌<◌, ◌≡◌, ◌≢◌, ◌⊎◌, inl, inr, refl, sym, Bool, true, false, not, Option, none, some, List,
  [], ◌∷◌, length, arith, ◌==◌, if◌then◌else◌, Bool-cases, Option-cases,
}
use starrysky_mc_server.Ringbuf.{Ringbuf}
use starrysky_mc_server.Server.Body.{read_varint_body}
use starrysky_mc_server.Server.Handle.{
  c_string, HandshakeResult, accepted, read_next_state, enter_next_state, try_handle_handshake,
}
use starrysky_mc_server.Server.Session.Commands.{unchanged}
use starrysky_mc_server.Server.Session.{HasName, IsSession, Moves, stays, restarts, joins, Handled}
use starrysky_mc_server.Server.State.{
  ConnState, handshake, status, login, play, Server, reset_logical_session,
}

fresh-IsSession : (s : Server) → IsSession (reset_logical_session s)
unfolding reset_logical_session
fresh-IsSession s = record {
  name = (refl, refl, refl, refl, refl);
  sent = omega arith;
  time = omega arith;
  id = omega arith;
}

-- A session that begins anew, in one of the states before play.
anew :
    (s : Server) (d : ConnState) (b : Bool)
    → s.state ≢ play
    → d ≢ play
    → HasName d (record (reset_logical_session s) { state = d })
    → Handled s (b, record (reset_logical_session s) { state = d })
unfolding reset_logical_session
anew s d b not_playing other name = record {
  session = record { name = name; sent = omega arith; time = omega arith; id = omega arith };
  moves = restarts s.state d not_playing other;
  same_input = refl;
}

enter_next_state-Handled :
    (o : Option ℕ) (s : Server)
    → IsSession s
    → s.state ≢ play
    → Handled s (true, (enter_next_state o s).1)
unfolding enter_next_state reset_logical_session
enter_next_state-Handled none s v n = unchanged s true v
enter_next_state-Handled (some next_state) s v n = elim (Bool-cases (next_state == 1)) [
  | inl e ↦ rw e (anew s status true n (λ e. cc) (refl, refl, refl, refl, refl))
  | inr e ↦ rw e (elim (Bool-cases (next_state == 2)) [
    | inl f ↦ rw f (anew s login true n (λ e. cc) (refl, refl, refl, refl, refl))
    | inr f ↦ rw f (anew s handshake true n (λ e. cc) (refl, refl, refl, refl, refl))
  ])
]

pub try_handle_handshake-Handled :
    (body : List ℕ) (s : Server)
    → IsSession s
    → s.state ≢ play
    → Handled s (true, (try_handle_handshake body s).1)
unfolding try_handle_handshake
try_handle_handshake-Handled body s v n = elim (Option-cases (read_varint_body body 0)) [
  | inl e ↦ rw (try_handle_handshake, e) (unchanged s true v)
  | inr (r, e) ↦
      rw (try_handle_handshake, e)
        (elim (Bool-cases (not (r.0 == 0))) [
          | inl f ↦ rw f (unchanged s true v)
          | inr f ↦ rw f (enter_next_state-Handled (read_next_state body r.1) s v n)
        ])
]

pub length-c_string : (bytes : List ℕ) → length (c_string bytes) ≤ length bytes
unfolding c_string
length-c_string [] = omega arith
length-c_string (b ∷ bytes) = ground (arith, length-c_string bytes)

-- The session of a client with a name, whose compression may have been switched on.
module _ (s : Server) (v : IsSession s) (p : s.state ≡ login) where
  facts : HasName login s
  facts = subst (λ c. HasName c s) p v.name

  compressing-Handled :
      (b enabled : Bool) → Handled s (b, record s { compression_enabled = enabled })
  compressing-Handled b enabled =
      let t = record s { compression_enabled = enabled } in
      record {
        session = record {
          name = subst (λ c. HasName c t) (sym p) facts;
          sent = v.sent;
          time = v.time;
          id = v.id;
        };
        moves = stays s.state;
        same_input = refl;
      }

  joined-Handled :
      (enabled : Bool) (username : List ℕ)
      → 0 < length username
      → length username ≤ 16
      → Handled s
          (true, record s { compression_enabled = enabled; username = username; state = play })
  joined-Handled enabled username some_name short = record {
    session = record { name = (some_name, short); sent = v.sent; time = v.time; id = v.id };
    moves = subst (λ c. Moves c play) (sym p) joins;
    same_input = refl;
  }

  -- The result of a login, by whether it succeeded and whether compression is on.
  login_result :
      (username : List ℕ) (ok enabled : Bool)
      → 0 < length username
      → length username ≤ 16
      → (let t = record s { compression_enabled = enabled } in
          Handled s (ok, (if ok then record t { username = username; state = play } else t)))
  login_result username true enabled some_name short =
      joined-Handled enabled username some_name short
  login_result username false enabled some_name short = compressing-Handled false enabled

  pub login_by :
      (username : List ℕ) (r : Bool × Server × Ringbuf) (enabled : Bool)
      → 0 < length username
      → length username ≤ 16
      → r.1 ≡ record s { compression_enabled = enabled }
      → Handled s (r.0, (if r.0 then record r.1 { username = username; state = play } else r.1))
  login_by username r enabled some_name short e =
      subst
        (λ (t : Server).
          Handled s (r.0, (if r.0 then record t { username = username; state = play } else t)))
        (sym e) (login_result username r.0 enabled some_name short)

-- A handshake that is not accepted leaves the session, or ends it.
abbrev pub Outcomes : Server → HandshakeResult × Server → Type 0
Outcomes s r = (r.0 ≡ accepted) ⊎ (r.1 ≡ s) ⊎ (r.1.state ≡ handshake)

enter_next_state_cases : (o : Option ℕ) (s : Server) → Outcomes s (enter_next_state o s)
unfolding enter_next_state reset_logical_session
enter_next_state_cases none s = inr (inl refl)
enter_next_state_cases (some next_state) s = elim (Bool-cases (next_state == 1)) [
  | inl e ↦ rw e (inl refl)
  | inr e ↦ rw e (elim (Bool-cases (next_state == 2)) [
    | inl f ↦ rw f (inl refl)
    | inr f ↦ rw f (inr (inr refl))
  ])
]

pub try_handle_handshake_cases :
    (body : List ℕ) (s : Server) → Outcomes s (try_handle_handshake body s)
unfolding try_handle_handshake
try_handle_handshake_cases body s = elim (Option-cases (read_varint_body body 0)) [
  | inl e ↦ rw (try_handle_handshake, e) (inr (inl refl))
  | inr (r, e) ↦
      rw (try_handle_handshake, e)
        (elim (Bool-cases (not (r.0 == 0))) [
          | inl f ↦ rw f (inr (inl refl))
          | inr f ↦ rw f (enter_next_state_cases (read_next_state body r.1) s)
        ])
]
