-- ===== src/Wiiload/Send/Sent.antt =====
-- What has gone over when `send_tcp` returns.
use hbc.Base.{
  ℕ, zero, suc, ◌≤◌, ◌≡◌, ◌≢◌, refl, sym, ap, ◌∙◌, subst, arith, Bool, true, false, Option, some,
  List, [], ◌∷◌, ◌++◌, if◌then◌else◌, length-drop, length-take, ==_iff, ◌==◌, ltb, length, take,
  drop, All, Bool-cases, Option-cases, inl, inr,
}
use hbc.Wiiload.Send.{
  Wire, Sending, returned, blocked, write_all, tcp_write, and_then, block_size, send_blocks,
  magic_word, version_word, size_word, send_tcp,
}

-- `send` takes no more bytes than it is given.
abbrev pub IsLawful : List (ℕ → Option ℕ) → Type 0
IsLawful = All (λ answer. (b n : ℕ) → answer b ≡ some n → n ≤ b)

-- The bytes `all` were to go over behind `before`. All of them did if the answer is true; else a part
-- that is not the whole.
pub data Sent (all before : List ℕ) : Sending → Type 0 where
  whole : (w : Wire) → IsLawful w.sends → w.sent ≡ before ++ all → Sent all before (returned true w)
  part_failed :
      (front back : List ℕ) (w : Wire)
      → all ≡ front ++ back
      → back ≢ []
      → w.sent ≡ before ++ front
      → Sent all before (returned false w)
  part_blocked :
      (front back : List ℕ) (w : Wire)
      → all ≡ front ++ back
      → back ≢ []
      → w.sent ≡ before ++ front
      → Sent all before (blocked w)

++_assoc : (a b c : List ℕ) → (a ++ b) ++ c ≡ a ++ (b ++ c)
++_assoc [] b c = refl
++_assoc (x ∷ a) b c = ap (λ l. x ∷ l) (++_assoc a b c)

++_nil : (a : List ℕ) → a ++ [] ≡ a
++_nil [] = refl
++_nil (x ∷ a) = ap (λ l. x ∷ l) (++_nil a)

take-drop : (n : ℕ) (a : List ℕ) → take n a ++ drop n a ≡ a
take-drop zero a = refl
take-drop (suc n) [] = refl
take-drop (suc n) (x ∷ a) = ap (λ l. x ∷ l) (take-drop n a)

++_nonempty : (a b : List ℕ) → a ≢ [] → a ++ b ≢ []
++_nonempty [] b ne = absurd (ne refl)
++_nonempty (x ∷ a) b ne = λ e. cc

-- A first part went over, and the rest is under way.
Sent-front : (a b before : List ℕ) (o : Sending) → Sent b (before ++ a) o → Sent (a ++ b) before o
Sent-front a b before _ (whole w law e) = whole w law (e ∙ ++_assoc before a b)
Sent-front a b before _ (part_failed front back w e ne f) =
    part_failed (a ++ front) back w (ap (λ l. a ++ l) e ∙ sym (++_assoc a front back)) ne
      (f ∙ ++_assoc before a front)
Sent-front a b before _ (part_blocked front back w e ne f) =
    part_blocked (a ++ front) back w (ap (λ l. a ++ l) e ∙ sym (++_assoc a front back)) ne
      (f ∙ ++_assoc before a front)

Sent-and_then :
    (a b before : List ℕ) (o : Sending) (f : Wire → Sending)
    → Sent a before o
    → ((w : Wire) → IsLawful w.sends → w.sent ≡ before ++ a → Sent b w.sent (f w))
    → Sent (a ++ b) before (and_then o f)
Sent-and_then a b before _ f (whole w law e) next =
    Sent-front a b before (f w) (subst (λ l. Sent b l (f w)) e (next w law e))
Sent-and_then a b before _ f (part_failed front back w e ne g) next =
    part_failed front (back ++ b) w (ap (λ l. l ++ b) e ∙ ++_assoc front back b)
      (++_nonempty back b ne) g
Sent-and_then a b before _ f (part_blocked front back w e ne g) next =
    part_blocked front (back ++ b) w (ap (λ l. l ++ b) e ∙ ++_assoc front back b)
      (++_nonempty back b ne) g

write_all-Sent :
    (sends : List (ℕ → Option ℕ)) (buf sent : List ℕ)
    → IsLawful sends
    → Sent buf sent (write_all sends buf sent)
unfolding write_all
write_all-Sent sends [] sent law = whole _ law (sym (++_nil sent))
write_all-Sent [] (b ∷ bs) sent law = part_blocked [] (b ∷ bs) _ refl (λ e. cc) (sym (++_nil sent))
write_all-Sent (answer ∷ sends) (b ∷ bs) sent law = elim (Option-cases (answer (length (b ∷ bs)))) [
  | inl e ↦ rw e (part_failed [] (b ∷ bs) _ refl (λ f. cc) (sym (++_nil sent)))
  | inr (n, e) ↦ rw e (
      subst (λ l. Sent l sent (write_all sends (drop n (b ∷ bs)) (sent ++ take n (b ∷ bs))))
        (take-drop n (b ∷ bs))
        (Sent-front (take n (b ∷ bs)) (drop n (b ∷ bs)) sent _
          (write_all-Sent sends (drop n (b ∷ bs)) (sent ++ take n (b ∷ bs)) law.1)))
]

tcp_write-Sent : (buf : List ℕ) (w : Wire) → IsLawful w.sends → Sent buf w.sent (tcp_write buf w)
unfolding tcp_write
tcp_write-Sent buf w law = write_all-Sent w.sends buf w.sent law

returned-injective : {v w : Wire} {b c : Bool} → returned b v ≡ returned c w → v ≡ w
returned-injective e = cc

-- A true answer means that all went over.
pub Sent-returned :
    (all before : List ℕ) (u : Wire) (o : Sending)
    → Sent all before o
    → o ≡ returned true u
    → u.sent ≡ before ++ all
Sent-returned all before u _ (whole w law f) e =
    subst (λ v. v.sent ≡ before ++ all) (returned-injective e) f
Sent-returned all before u _ (part_failed front back w f ne g) e = cc
Sent-returned all before u _ (part_blocked front back w f ne g) e = cc

send_blocks-Sent :
    (fuel : ℕ) (buf : List ℕ) (w : Wire)
    → length buf ≤ fuel
    → IsLawful w.sends
    → Sent buf w.sent (send_blocks fuel buf w)
unfolding send_blocks
send_blocks-Sent fuel [] w enough law = whole w law (sym (++_nil w.sent))
send_blocks-Sent zero (b ∷ bs) w enough law = absurd (omega arith)
send_blocks-Sent (suc fuel) (b ∷ bs) w enough law =
    subst (λ l. Sent l w.sent (send_blocks (suc fuel) (b ∷ bs) w)) (take-drop block (b ∷ bs))
      (Sent-and_then (take block (b ∷ bs)) (drop block (b ∷ bs)) w.sent
        (tcp_write (take block (b ∷ bs)) w) _ (tcp_write-Sent (take block (b ∷ bs)) w law)
        (λ u law' e. send_blocks-Sent fuel (drop block (b ∷ bs)) u shorter law'))
  where
    block : ℕ
    block = if ltb block_size (length (b ∷ bs)) then block_size else length (b ∷ bs)

    shorter : length (drop block (b ∷ bs)) ≤ fuel
    shorter = let l = length-drop block (b ∷ bs) in ground arith

-- What an upload consists of.
abbrev pub upload_bytes : List ℕ → ℕ → ℕ → List ℕ → ℕ → List ℕ
upload_bytes buf len len_un args args_len =
    magic_word
    ++ (version_word args_len
        ++ (size_word len ++ (size_word len_un ++ (take len buf ++ take args_len args))))

-- However send cuts the data up, if it never takes more than it is given, what send_tcp has handed
-- over is a beginning of the magic, the version and argument length, both sizes, the data and the
-- arguments, in this order; and all of it if and only if the answer is true.
pub send_tcp-Sent :
    (connects : Bool) (buf : List ℕ) (len len_un : ℕ) (args : List ℕ) (args_len : ℕ) (w : Wire)
    → IsLawful w.sends
    → Sent
        (upload_bytes buf len len_un args args_len)
        w.sent
        (send_tcp connects buf len len_un args args_len w)
unfolding send_tcp
send_tcp-Sent false buf len len_un args args_len w law =
    part_failed [] _ w refl (λ e. cc) (sym (++_nil w.sent))
send_tcp-Sent true buf len len_un args args_len w law =
    Sent-and_then magic_word _ w.sent (tcp_write magic_word w) _ (tcp_write-Sent magic_word w law)
      (λ w1 l1 e1.
        Sent-and_then (version_word args_len) _ w1.sent (tcp_write (version_word args_len) w1) _
          (tcp_write-Sent (version_word args_len) w1 l1)
          (λ w2 l2 e2.
            Sent-and_then (size_word len) _ w2.sent (tcp_write (size_word len) w2) _
              (tcp_write-Sent (size_word len) w2 l2)
              (λ w3 l3 e3.
                Sent-and_then (size_word len_un) _ w3.sent (tcp_write (size_word len_un) w3) _
                  (tcp_write-Sent (size_word len_un) w3 l3)
                  (λ w4 l4 e4.
                    Sent-and_then (take len buf) (take args_len args) w4.sent
                      (send_blocks len (take len buf) w4) _
                      (send_blocks-Sent len (take len buf) w4
                        (let t = length-take len buf in omega arith) l4)
                      (λ w5 l5 e5. args_sent w5 l5)))))
  where
    args_sent :
        (u : Wire)
        → IsLawful u.sends
        → Sent
            (take args_len args)
            u.sent
            (if args_len == 0 then returned true u else tcp_write (take args_len args) u)
    args_sent u l = elim (Bool-cases (args_len == 0)) [
      | inl e ↦ rw e (
          subst (λ n. Sent (take n args) u.sent (returned true u)) (sym ((==_iff args_len 0).0 e))
            (whole u l (sym (++_nil u.sent))))
      | inr e ↦ rw e (tcp_write-Sent (take args_len args) u l)
    ]
