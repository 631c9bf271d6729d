-- ===== src/Session/Tests.antt =====
-- A request that is forwarded.
use project_test_demo.Common.{ℕ, true, false, some, [], ◌∷◌, length, ◌≡◌, ◌≤◌, ◌+◌, ◌⊎◌, refl}
use project_test_demo.Session.{
  HttpSession, reading, crashed, got, on_read, on_client_read, client_on_connect,
  on_client_handshake, on_client_write, read_done, connect_done, handshake_done, client_write_done,
  client_read_done, new_session, Served, begun, served,
}
use project_test_demo.Session.Forwarding.{
  copies, requests_one_at_a_time, response_is_never_forwarded,
}

-- The request 5 is answered with 8 by the server, and with 0 by the session.
abbrev answered : HttpSession ℕ ℕ
answered = on_client_read (some 8) (
    on_client_write false (
      on_client_handshake false
        (client_on_connect false (on_read (got false 5) (new_session true 0 1)))))

answered-written : (answered.sent ≡ 5 ∷ []) × (answered.written ≡ 0 ∷ [])
unfolding on_read on_client_read
answered-written = (refl, refl)

-- A plain session has no stream to the server.
abbrev plain : HttpSession ℕ ℕ
plain = new_session false 0 1

plain_crashes : (on_read (got false 5) plain).waiting ≡ crashed
unfolding on_read
plain_crashes = refl

Served-answered : Served true 0 1 answered
unfolding on_read
Served-answered =
    served
      (served
        (served (served (served begun (read_done (got false 5) refl)) (connect_done false refl))
          (handshake_done false refl))
        (client_write_done false refl))
      (client_read_done (some 8) refl)

requests_one_at_a_time_example :
    (length answered.written ≤ length answered.sent)
    × (length answered.sent ≤ length answered.written + 1)
    × (¬ (answered.waiting ≡ reading) ⊎ (length answered.sent ≡ length answered.written))
requests_one_at_a_time_example = requests_one_at_a_time true 0 1 Served-answered

response_is_never_forwarded_example : answered.written ≡ copies (length answered.written) 0
response_is_never_forwarded_example = response_is_never_forwarded true 0 1 Served-answered
