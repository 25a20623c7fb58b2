-- ===== src/UpdateAgent/Reset.antt =====
-- What the agent sends in a poll over the serial port, and when it asks for a reset.
use stm32_vibe.Base.{
  ℕ, zero, suc, ◌+◌, ◌<◌, ◌≡◌, refl, subst, ap, sym, ◌∙◌, if◌then◌else◌, ◌==◌, ◌&&◌, not, Bool,
  true, false, List, [], ◌∷◌, ◌++◌, length, append_assoc, AreBytes, arith,
}
use stm32_vibe.Uart.{Uart, ok, rx_empty, take_byte, uart_receive_byte}
use stm32_vibe.UpdateLoop.{received}
use stm32_vibe.Stream.{Stream}
use stm32_vibe.Layout.{Board}
use stm32_vibe.UpdateAgent.Keep.{agent_byte-Same}
use stm32_vibe.UpdateAgent.{UpdateAgent, agent_byte, agent_bytes, listens, update_agent_poll}
use stm32_vibe.UpdateAgent.Answer.{
  Answer, answer_frame, answer_frames, entries, answers_to, heard, parsed, parser-agent_byte,
  IsLogged, Logged, nothing, agent_byte-Logged,
}

answer_frames-append :
    (xs ys : List Answer) → answer_frames (xs ++ ys) ≡ answer_frames xs ++ answer_frames ys
answer_frames-append [] ys = refl
answer_frames-append (x ∷ xs) ys =
    ap (λ k. answer_frame x ++ k) (answer_frames-append xs ys)
    ∙ sym (append_assoc (answer_frame x) (answer_frames xs) (answer_frames ys))

entries-append : (xs ys : List Answer) → entries (xs ++ ys) ≡ entries xs + entries ys
entries-append [] ys = omega arith
entries-append (x ∷ xs) ys = ground (arith, entries-append xs ys)

IsLogged-trans :
    (a b c : UpdateAgent) (xs ys : List Answer)
    → IsLogged a b xs
    → IsLogged b c ys
    → IsLogged a c (xs ++ ys)
IsLogged-trans a b c xs ys v w = record {
  sent =
      w.sent
      ∙ ap (λ k. k ++ answer_frames ys) v.sent
      ∙ append_assoc a.uart.sent (answer_frames xs) (answer_frames ys)
      ∙ ap (λ k. a.uart.sent ++ k) (sym (answer_frames-append xs ys));
  resets = ground (arith, v.resets, w.resets, v.callback, entries-append xs ys);
  callback = w.callback ∙ v.callback;
  on = w.on;
}

uart_receive_byte-nil :
    (u : Uart) → u.incoming ≡ [] → u.initialized ≡ true → uart_receive_byte u ≡ (rx_empty, 0, u)
unfolding uart_receive_byte take_byte
uart_receive_byte-nil u h on = ground (arith, h, on)

uart_receive_byte-cons :
    (u : Uart) (byte : ℕ) (rest : List ℕ)
    → u.incoming ≡ byte ∷ rest
    → u.initialized ≡ true
    → uart_receive_byte u ≡ (ok, byte, record u { incoming = rest })
unfolding uart_receive_byte take_byte
uart_receive_byte-cons u byte rest h on = ground (arith, h, on)

-- The agent that has read a byte, of which `rest` is left.
abbrev reader : UpdateAgent → List ℕ → UpdateAgent
reader a rest = record a { uart = record a.uart { incoming = rest } }

-- The reading of a byte is not an answer.
IsLogged-reader :
    (a a' : UpdateAgent) (rest : List ℕ) (log : List Answer)
    → IsLogged (reader a rest) a' log
    → IsLogged a a' log
IsLogged-reader a a' rest log v = record {
  sent = v.sent;
  resets = v.resets;
  callback = v.callback;
  on = v.on;
}

-- The first round of the loop.
agent_bytes-nil :
    (n : ℕ) (a : UpdateAgent)
    → a.uart.incoming ≡ []
    → a.uart.initialized ≡ true
    → agent_bytes (suc n) a ≡ a
unfolding agent_bytes
agent_bytes-nil n a h on = ground (arith, uart_receive_byte-nil a.uart h on)

agent_bytes-cons :
    (n : ℕ) (a : UpdateAgent) (byte : ℕ) (rest : List ℕ)
    → a.uart.incoming ≡ byte ∷ rest
    → a.uart.initialized ≡ true
    → let done = agent_byte (reader a rest) byte in
      agent_bytes (suc n) a ≡ (if done.resets == a.resets then agent_bytes n done else done)
unfolding agent_bytes
agent_bytes-cons n a byte rest h on = ground (arith, uart_receive_byte-cons a.uart byte rest h on)

heard-nil :
    (callback : Bool) (stream : Stream) (payload : List ℕ) → heard callback stream payload [] ≡ []
unfolding heard
heard-nil callback stream payload = refl

heard-cons :
    (a : UpdateAgent) (byte : ℕ) (rest : List ℕ)
    → let out = parsed a byte in
      let answers = answers_to out.0 (received out.3) in
      let done = agent_byte (reader a rest) byte in
      heard a.reset_callback a.stream a.payload (byte ∷ rest) ≡ (
        if a.reset_callback && not (entries answers == 0)
        then answers
        else answers ++ heard a.reset_callback done.stream done.payload rest)
unfolding heard
heard-cons a byte rest = ground (arith, parser-agent_byte (reader a rest) byte)

-- The loop goes on unless the answers to the byte call the callback.
stop_or_go :
    {a done later : UpdateAgent} {answers : List Answer} (log : List Answer) (stop : Bool)
    → Logged a done answers
    → Logged a later (answers ++ log)
    → Logged a (if not stop then later else done) (if stop then answers else answers ++ log)
stop_or_go log true v w = v
stop_or_go log false v w = w

goes_on_iff :
    (a done : UpdateAgent) (answers : List Answer)
    → IsLogged a done answers
    → (done.resets == a.resets) ≡ not (a.reset_callback && not (entries answers == 0))
goes_on_iff a done answers v = ground (arith, v.resets)

agent_bytes-Logged :
    (bytes : List ℕ) (n : ℕ) (a : UpdateAgent)
    → length bytes < n
    → a.uart.incoming ≡ bytes
    → AreBytes a.stream.buffer
    → AreBytes bytes
    → a.uart.initialized ≡ true
    → Logged a (agent_bytes n a) (heard a.reset_callback a.stream a.payload bytes)
agent_bytes-Logged bytes zero a enough e h waiting on = absurd (omega (arith, enough))
agent_bytes-Logged [] (suc n) a enough e h waiting on =
    subst (λ l. Logged a (agent_bytes (suc n) a) l)
      (sym (heard-nil a.reset_callback a.stream a.payload))
      (subst (λ k. Logged a k []) (sym (agent_bytes-nil n a e on))
        (record { is_logged = nothing a on; bytes = h }))
agent_bytes-Logged (byte ∷ rest) (suc n) a enough e h waiting on =
    let read = reader a rest in
    let done = agent_byte read byte in
    let out = parsed a byte in
    let answers = answers_to out.0 (received out.3) in
    let one : Logged read done answers = agent_byte-Logged read byte h waiting.0 on in
    let first = IsLogged-reader a done rest answers one.is_logged in
    let log = heard a.reset_callback done.stream done.payload rest in
    let later : Logged done (agent_bytes n done) log =
      subst
        (λ callback.
          Logged done (agent_bytes n done) (heard callback done.stream done.payload rest))
        first.callback
        (agent_bytes-Logged rest n done (omega (arith, enough)) (agent_byte-Same read byte).0
          one.bytes waiting.1 first.on) in
    let stop = a.reset_callback && not (entries answers == 0) in
    let both : Logged a (if not stop then agent_bytes n done else done)
        (if stop then answers else answers ++ log) =
      stop_or_go log stop (record { is_logged = first; bytes = one.bytes })
        (record {
          is_logged = IsLogged-trans a done (agent_bytes n done) answers log first later.is_logged;
          bytes = later.bytes;
        }) in
    let went : Logged a (agent_bytes (suc n) a) (if stop then answers else answers ++ log) =
      subst (λ k. Logged a k (if stop then answers else answers ++ log))
        (sym (
          agent_bytes-cons n a byte rest e on
          ∙ ap (λ c. if c then agent_bytes n done else done) (goes_on_iff a done answers first)))
        both in
    subst (λ l. Logged a (agent_bytes (suc n) a) l) (sym (heard-cons a byte rest)) went

-- In a build whose agent has no CAN, whatever bytes wait in a serial port that is set up, a poll of the
-- agent sends the acknowledgements that the bytes ask for, and nothing else: the parser is fed the bytes
-- one by one, and every packet that it then gives is accepted if it asks for discovery or the update
-- mode and refused if not, and every complaint of it but that of a wrong length is sent on. With a
-- callback a reset is asked for at the first request for the update mode, behind which nothing is
-- answered; without a callback all bytes are fed and no reset is asked for.
pub update_agent_poll-Logged :
    (b : Board) (smoke : Bool) (node_id : ℕ) (a : UpdateAgent)
    → listens b smoke ≡ false
    → AreBytes a.stream.buffer
    → AreBytes a.uart.incoming
    → a.uart.initialized ≡ true
    → Logged a
        (update_agent_poll b smoke node_id a)
        (heard a.reset_callback a.stream a.payload a.uart.incoming)
unfolding update_agent_poll
update_agent_poll-Logged b smoke node_id a no_can h waiting on =
    let bytes = agent_bytes (length a.uart.incoming + 1) a in
    let log = heard a.reset_callback a.stream a.payload a.uart.incoming in
    let done : Logged a bytes log =
      agent_bytes-Logged a.uart.incoming (length a.uart.incoming + 1) a (omega arith) refl h waiting
        on in
    subst (λ k. Logged a k log) (ground (arith, no_can)) done
