-- ===== src/Wiiload/Send/Ends.antt =====
-- `send_tcp` and a peer that keeps taking bytes.
use hbc.Base.{
  ℕ, zero, suc, ◌+◌, ◌≤◌, ◌≡◌, refl, sym, ◌∙◌, subst, arith, true, Option, some, List, [], ◌∷◌,
  ◌++◌, if◌then◌else◌, length-drop, length-take, length-append, ◌==◌, ltb, length, take, drop, All,
  Bool-cases, inl, inr, some-injective,
}
use hbc.Wiiload.Send.{
  Wire, Sending, returned, write_all, tcp_write, and_then, block_size, send_blocks, magic_word,
  version_word, size_word, send_tcp,
}
use hbc.Wiiload.Send.Sent.{IsLawful, Sent-returned, upload_bytes, send_tcp-Sent}

-- Each call takes at least one of the bytes at hand.
abbrev pub IsWilling : List (ℕ → Option ℕ) → Type 0
IsWilling = All (λ answer. (b : ℕ) → (n : ℕ) × (answer b ≡ some n) × (1 ≤ b → 1 ≤ n) × (n ≤ b))

-- It returns true with `spare` calls to come.
abbrev Goes : ℕ → Sending → Type 0
Goes spare o = (w : Wire) × (o ≡ returned true w) × IsWilling w.sends × (spare ≤ length w.sends)

Goes-and_then :
    (m n : ℕ) (o : Sending) (f : Wire → Sending)
    → Goes m o
    → ((w : Wire) → IsWilling w.sends → m ≤ length w.sends → Goes n (f w))
    → Goes n (and_then o f)
Goes-and_then m n o f (w, e, will, more) next =
    subst (λ x. Goes n (and_then x f)) (sym e) (next w will more)

write_all-Goes :
    (spare : ℕ) (sends : List (ℕ → Option ℕ)) (buf sent : List ℕ)
    → IsWilling sends
    → length buf + spare ≤ length sends
    → Goes spare (write_all sends buf sent)
unfolding write_all
write_all-Goes spare sends [] sent will more = (_, refl, will, omega arith)
write_all-Goes spare [] (b ∷ bs) sent will more = absurd (omega arith)
write_all-Goes spare (answer ∷ sends) (b ∷ bs) sent will more =
    let (n, e, some_byte, fits) = will.0 (length (b ∷ bs)) in
    let positive = some_byte (omega arith) in
    rw e (
      write_all-Goes spare sends (drop n (b ∷ bs)) (sent ++ take n (b ∷ bs)) will.1
        (let l = length-drop n (b ∷ bs) in omega arith))

tcp_write-Goes :
    (spare : ℕ) (buf : List ℕ) (w : Wire)
    → IsWilling w.sends
    → length buf + spare ≤ length w.sends
    → Goes spare (tcp_write buf w)
unfolding tcp_write
tcp_write-Goes spare buf w will more = write_all-Goes spare w.sends buf w.sent will more

send_blocks-Goes :
    (spare fuel : ℕ) (buf : List ℕ) (w : Wire)
    → length buf ≤ fuel
    → IsWilling w.sends
    → length buf + spare ≤ length w.sends
    → Goes spare (send_blocks fuel buf w)
unfolding send_blocks
send_blocks-Goes spare fuel [] w enough will more = (w, refl, will, omega arith)
send_blocks-Goes spare zero (b ∷ bs) w enough will more = absurd (omega arith)
send_blocks-Goes spare (suc fuel) (b ∷ bs) w enough will more =
    Goes-and_then (length (drop block (b ∷ bs)) + spare) spare (tcp_write (take block (b ∷ bs)) w) _
      (tcp_write-Goes (length (drop block (b ∷ bs)) + spare) (take block (b ∷ bs)) w will room)
      (λ u will' more'. send_blocks-Goes spare fuel (drop block (b ∷ bs)) u shorter will' more')
  where
    block : ℕ
    block = if ltb block_size (length (b ∷ bs)) then block_size else length (b ∷ bs)

    room : length (take block (b ∷ bs)) + (length (drop block (b ∷ bs)) + spare) ≤ length w.sends
    room = let l = length-drop block (b ∷ bs) in let k = length-take block (b ∷ bs) in omega arith

    shorter : length (drop block (b ∷ bs)) ≤ fuel
    shorter = let l = length-drop block (b ∷ bs) in ground arith

-- If each call of send takes at least one of the bytes it is given, and no more than these, as
-- many calls as there are bytes are enough for send_tcp, once connected, to return true with
-- everything sent.
pub send_tcp_ends :
    (buf : List ℕ) (len len_un : ℕ) (args : List ℕ) (args_len : ℕ) (w : Wire)
    → IsWilling w.sends
    → length (upload_bytes buf len len_un args args_len) ≤ length w.sends
    → (u : Wire) × (send_tcp true buf len len_un args args_len w ≡ returned true u)
      × (u.sent ≡ w.sent ++ upload_bytes buf len len_un args args_len)
unfolding send_tcp
send_tcp_ends buf len len_un args args_len w will more =
    let (u, e, _, _) = goes in
    (
      u,
      e,
      Sent-returned _ w.sent u _
          (send_tcp-Sent true buf len len_un args args_len w (lawful w.sends will)) e,
    )
  where
    lawful : (sends : List (ℕ → Option ℕ)) → IsWilling sends → IsLawful sends
    lawful [] h = tt
    lawful (answer ∷ sends) (h, rest) = (
      λ b n e. let (m, f, _, fits) = h b in subst (λ k. k ≤ b) (some-injective (sym f ∙ e)) fits,
      lawful sends rest,
    )

    ta : ℕ
    ta = length (take args_len args)

    tb : ℕ
    tb = length (take len buf) + ta

    last :
        (v : Wire)
        → IsWilling v.sends
        → ta ≤ length v.sends
        → Goes 0 (if args_len == 0 then returned true v else tcp_write (take args_len args) v)
    last v h k = elim (Bool-cases (args_len == 0)) [
      | inl e ↦ rw e (v, refl, h, omega arith)
      | inr e ↦ rw e (tcp_write-Goes 0 (take args_len args) v h (omega arith))
    ]

    goes : Goes 0 (send_tcp true buf len len_un args args_len w)
    goes =
        let total = length-append (take len buf) (take args_len args) in
        Goes-and_then (12 + tb) 0 (tcp_write magic_word w) _
          (tcp_write-Goes (12 + tb) magic_word w will (omega arith))
          (λ w1 h1 k1.
            Goes-and_then (8 + tb) 0 (tcp_write (version_word args_len) w1) _
              (tcp_write-Goes (8 + tb) (version_word args_len) w1 h1 (omega arith))
              (λ w2 h2 k2.
                Goes-and_then (4 + tb) 0 (tcp_write (size_word len) w2) _
                  (tcp_write-Goes (4 + tb) (size_word len) w2 h2 (omega arith))
                  (λ w3 h3 k3.
                    Goes-and_then tb 0 (tcp_write (size_word len_un) w3) _
                      (tcp_write-Goes tb (size_word len_un) w3 h3 (omega arith))
                      (λ w4 h4 k4.
                        Goes-and_then ta 0 (send_blocks len (take len buf) w4) _
                          (send_blocks-Goes ta len (take len buf) w4
                            (let t = length-take len buf in omega arith) h4 (omega arith))
                          (λ w5 h5 k5. last w5 h5 k5)))))
