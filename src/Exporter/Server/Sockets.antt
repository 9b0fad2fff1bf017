-- ===== src/Exporter/Server/Sockets.antt =====
-- `send_all`, `parse_port` and `create_listener` of tools/metrics_exporter.cpp.
use mathlib.Core.List.{append_assoc}
use market_data_ingress.Base.{
  ℕ, zero, suc, ◌+◌, ◌-◌, ◌≤◌, ◌<◌, ◌≡◌, ◌≢◌, refl, sym, Option, none, List, [], ◌∷◌, ◌++◌, Bytes,
  length, take, take-append-drop, drop, drop-drop, drop_all, ltb, ltb→lt, Bool-cases, Option-cases,
  inl, inr, ◌⊎◌, ok, arith,
}
use market_data_ingress.Exporter.Server.{
  send_from, send_all, SocketCall, opened, closed, bound, listening, Network, create_listener,
}

-- A chunk, and what is left behind it.
chunk-append-drop : (n m : ℕ) (xs : Bytes) → take n (drop m xs) ++ drop (m + n) xs ≡ drop m xs
chunk-append-drop n m xs = rw (← drop-drop m n xs) (take-append-drop n (drop m xs))

-- What goes out is the front of what is left to send.
send_from_prefix :
    (fuel : ℕ) (send : ℕ → Option ℕ) (response : Bytes) (sent : ℕ)
    → (left : Bytes) × (send_from fuel send response sent ++ left ≡ drop sent response)
unfolding send_from
send_from_prefix zero send response sent = (drop sent response, refl)
send_from_prefix (suc fuel) send response sent = elim (Option-cases (send sent)) [
  | inl failed ↦ (drop sent response, rw (failed, send_from))
  | inr (r, took) ↦ elim (Bool-cases (ltb sent (length response))) [
    | inr finished ↦ (drop sent response, rw (took, send_from) (rw finished))
    | inl more ↦
        let (left, e) = send_from_prefix fuel send response (sent + suc r) in
        (
          left,
          rw (took, send_from)
              (rw more (rw append_assoc (rw e (chunk-append-drop (suc r) sent response)))),
        )
  ]
]

send_from_complete :
    (fuel : ℕ) (send : ℕ → Option ℕ) (response : Bytes) (sent : ℕ)
    → ((n : ℕ) → n < length response → send n ≢ none)
    → length response ≤ sent + fuel
    → send_from fuel send response sent ≡ drop sent response
unfolding send_from
send_from_complete zero send response sent h enough = sym (drop_all sent response (omega arith))
send_from_complete (suc fuel) send response sent h enough =
    elim (Bool-cases (ltb sent (length response))) [
      | inr finished ↦ elim (Option-cases (send sent)) [
        | inl failed ↦ rw (failed, send_from) (sym (drop_all sent response (ground arith)))
        | inr (r, took) ↦
            rw (took, send_from) (rw finished (sym (drop_all sent response (ground arith))))
      ]
      | inl more ↦ elim (Option-cases (send sent)) [
        | inl failed ↦ absurd (h sent (ltb→lt _ _ more) failed)
        | inr (r, took) ↦
            rw (took, send_from)
              (rw (more, send_from_complete fuel send response (sent + suc r) h (omega arith))
                (chunk-append-drop (suc r) sent response))
      ]
    ]

-- Whatever the kernel answers, and however few bytes it takes at a time, what goes out is a front part
-- of the response.
pub send_all_prefix :
    (send : ℕ → Option ℕ) (response : Bytes)
    → (left : Bytes) × (send_all send response ++ left ≡ response)
unfolding send_all
send_all_prefix send response = send_from_prefix (length response) send response 0

-- If no `send` fails before the end of the response, all of the response goes out, however few bytes
-- each call takes.
pub send_all_complete :
    (send : ℕ → Option ℕ) (response : Bytes)
    → ((n : ℕ) → n < length response → send n ≢ none)
    → send_all send response ≡ response
unfolding send_all
send_all_complete send response takes =
    send_from_complete (length response) send response 0 takes (omega arith)

-- The sockets open after a sequence of calls, from those open before it.
abbrev pub left_open : ℕ → List SocketCall → ℕ
left_open open_now [] = open_now
left_open open_now (opened ∷ calls) = left_open (open_now + 1) calls
left_open open_now (closed ∷ calls) = left_open (open_now - 1) calls
left_open open_now (bound address port ∷ calls) = left_open open_now calls
left_open open_now (listening ∷ calls) = left_open open_now calls

-- A listener that fails leaves no socket open, at whichever call it fails, and one that succeeds
-- leaves one open.
pub create_listener_lem :
    (net : Network) (address : Bytes) (port : ℕ)
    → let (outcome, calls) = create_listener net address port in
      ((outcome ≢ ok tt) × (left_open 0 calls ≡ 0)) ⊎ ((outcome ≡ ok tt) × (left_open 0 calls ≡ 1))
unfolding create_listener
create_listener_lem net address port = ground arith
