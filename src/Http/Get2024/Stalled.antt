-- ===== src/Http/Get2024/Stalled.antt =====
-- A stream of server/transport/handle-mcp2024-GET .go whose channel is closed.
use gate4ai.Prelude.{
  ℕ, ◌≡◌, inl, refl, sym, ap, ◌∙◌, Bool, true, false, List, [], ◌∷◌, ◌++◌, arith, All, All-append,
}
use gate4ai.Http.{Arrival, message, nil_message, closed, timer, disconnects}
use gate4ai.Http.Get2024.{
  GetResult, forward, wait_for_client, write, ping_event, message_event, waits, handle_2024_get,
  with_channel, endpoint_event, endpoint_path,
}
use gate4ai.Auth.{granted}
use gate4ai.Jsonrpc.{Message, Encoded, encoded, unencodable}
use gate4ai.Session.{Session, update_last_activity, acquire_output, set_status, connected}

is_disconnect : Arrival → Bool
is_disconnect disconnects = true
is_disconnect _ = false

-- The client stays connected.
unfoldable pub Stays : List (Arrival × ℕ) → Type 0
unfolding is_disconnect
Stays arrivals = All (λ a. is_disconnect a.0 ≡ false) arrivals

wait_for_client-Stays :
    (s : Session) (arrivals : List (Arrival × ℕ))
    → Stays arrivals
    → wait_for_client s arrivals ≡ wait_for_client s []
unfolding wait_for_client Stays is_disconnect
wait_for_client-Stays s [] h = refl
wait_for_client-Stays s ((disconnects, now) ∷ more) h = absurd (ground (arith, h.0))
wait_for_client-Stays s ((message m, now) ∷ more) h = wait_for_client-Stays s more h.1
wait_for_client-Stays s ((nil_message, now) ∷ more) h = wait_for_client-Stays s more h.1
wait_for_client-Stays s ((closed, now) ∷ more) h = wait_for_client-Stays s more h.1
wait_for_client-Stays s ((timer, now) ∷ more) h = wait_for_client-Stays s more h.1

wait_for_client-append :
    (s : Session) (xs ys : List (Arrival × ℕ))
    → Stays xs
    → Stays ys
    → wait_for_client s (xs ++ ys) ≡ wait_for_client s xs
unfolding Stays
wait_for_client-append s xs ys h k =
    wait_for_client-Stays s (xs ++ ys) (All-append (λ a. is_disconnect a.0 ≡ false) xs ys h k)
    ∙ sym (wait_for_client-Stays s xs h)

module _ (marshal : Message → Encoded) where
  forward_message :
      (s : Session) (m : Message) (now : ℕ) (xs ys : List (Arrival × ℕ)) (e : Encoded)
      → marshal m ≡ e
      → ((t : Session) → forward marshal t xs ≡ forward marshal t ys)
      → forward marshal s ((message m, now) ∷ xs) ≡ forward marshal s ((message m, now) ∷ ys)
  unfolding forward
  forward_message s m now xs ys (encoded json) e h =
      rw (e, forward) (ap (write (message_event now json)) (h (update_last_activity s now)))
  forward_message s m now xs ys (unencodable why) e h = rw (e, forward) (h s)

  message_waits :
      (s : Session) (m : Message) (now : ℕ) (xs : List (Arrival × ℕ)) (e : Encoded)
      → marshal m ≡ e
      → ((t : Session) → (forward marshal t xs).end ≡ waits)
      → (forward marshal s ((message m, now) ∷ xs)).end ≡ waits
  unfolding forward write
  message_waits s m now xs (encoded json) e h = rw (e, forward) (h (update_last_activity s now))
  message_waits s m now xs (unencodable why) e h = rw (e, forward) (h s)

  forward_waits :
      (xs : List (Arrival × ℕ)) (s : Session) → Stays xs → (forward marshal s xs).end ≡ waits
  unfolding forward wait_for_client write Stays is_disconnect
  forward_waits [] s h = refl
  forward_waits ((disconnects, t) ∷ xs) s h = absurd (ground (arith, h.0))
  forward_waits ((closed, t) ∷ xs) s h = ap (λ r. r.end) (wait_for_client-Stays s xs h.1)
  forward_waits ((nil_message, t) ∷ xs) s h = forward_waits xs s h.1
  forward_waits ((timer, t) ∷ xs) s h = forward_waits xs s h.1
  forward_waits ((message m, t) ∷ xs) s h =
      message_waits s m t xs (marshal m) refl (λ u. forward_waits xs u h.1)

  -- When a session's channel is closed and its client stays connected, whatever arrives then makes
  -- no difference: nothing more is written, no ping either, and the handler still waits as it did.
  forward_closed :
      (xs ys : List (Arrival × ℕ)) (now : ℕ) (s : Session)
      → Stays xs
      → Stays ys
      → forward marshal s (xs ++ (closed, now) ∷ ys) ≡ forward marshal s xs
  unfolding forward wait_for_client Stays is_disconnect
  forward_closed [] ys now s h k = wait_for_client-Stays s ys k
  forward_closed ((disconnects, t) ∷ xs) ys now s h k = absurd (ground (arith, h.0))
  forward_closed ((closed, t) ∷ xs) ys now s h k =
      wait_for_client-append s xs ((closed, now) ∷ ys) h.1 (refl, k)
  forward_closed ((nil_message, t) ∷ xs) ys now s h k = forward_closed xs ys now s h.1 k
  forward_closed ((timer, t) ∷ xs) ys now s h k =
      ap (write ping_event) (forward_closed xs ys now s h.1 k)
  forward_closed ((message m, t) ∷ xs) ys now s h k =
      forward_message s m t (xs ++ (closed, now) ∷ ys) xs (marshal m) refl
        (λ u. forward_closed xs ys now u h.1 k)

  with_channel_stalled :
      (p : Session × Bool) (xs ys : List (Arrival × ℕ)) (now : ℕ)
      → p.1 ≡ true
      → Stays xs
      → Stays ys
      → (r : GetResult) × (with_channel marshal p (xs ++ (closed, now) ∷ ys) ≡ r)
        × (with_channel marshal p xs ≡ r)
        × (r.end ≡ waits)
  unfolding with_channel write
  with_channel_stalled (t, false) xs ys now free h k = absurd (ground (arith, free))
  with_channel_stalled (t, true) xs ys now free h k = (
    write (endpoint_event (endpoint_path t)) (forward marshal (set_status t connected) xs),
    ap (write (endpoint_event (endpoint_path t)))
        (forward_closed xs ys now (set_status t connected) h k),
    refl,
    forward_waits xs (set_status t connected) h,
  )

  -- When the channel of a session is closed and its client stays connected, the handler waits on,
  -- and whatever arrives then makes no difference: nothing more is written, not even a ping.
  pub handle_2024_get_stalled :
      (s : Session) (xs ys : List (Arrival × ℕ)) (now : ℕ)
      → (acquire_output s).1 ≡ true
      → Stays xs
      → Stays ys
      → (r : GetResult) × (handle_2024_get marshal (granted s) (xs ++ (closed, now) ∷ ys) ≡ inl r)
        × (handle_2024_get marshal (granted s) xs ≡ inl r)
        × (r.end ≡ waits)
  unfolding handle_2024_get
  handle_2024_get_stalled s xs ys now free h k =
      let r = with_channel_stalled (acquire_output s) xs ys now free h k in
      (r.0, ap inl r.1, ap inl r.2, r.3)
