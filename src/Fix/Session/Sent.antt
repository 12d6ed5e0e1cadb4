-- ===== src/Fix/Session/Sent.antt =====
-- What `send` did where it succeeds: the whole message was written.
use venuewire.Prelude.{
  ℕ, zero, suc, ◌≡◌, refl, ap, ◌∙◌, subst, inl, inr, true, List, [], ◌∷◌, ◌++◌, take, drop, Text,
  codes, ok, Bool-cases, Result-cases, arith,
}
use venuewire.Fix.Codec.{Field, encode}
use venuewire.Fix.Session.Types.{Settings, Answer, took, broken, Write, Conn}
use venuewire.Fix.Session.Sending.{write_all, envelope, wrote, send}

take-drop : (n : ℕ) (xs : Text) → take n xs ++ drop n xs ≡ xs
take-drop zero xs = refl
take-drop (suc n) [] = refl
take-drop (suc n) (x ∷ xs) = ap (λ t. x ∷ t) (take-drop n xs)

-- Where `writeAll` reports no error, it wrote all bytes.
pub write_all_complete :
    (answers : List Answer) (t : Text)
    → (write_all answers t).1 ≡ true
    → (write_all answers t).0 ≡ t
unfolding write_all
write_all_complete answers [] h = refl
write_all_complete [] (x ∷ t) h = cc h
write_all_complete (broken ∷ answers) (x ∷ t) h = cc h
write_all_complete (took zero ∷ answers) (x ∷ t) h = cc h
write_all_complete (took (suc n) ∷ answers) (x ∷ t) h =
    ap (λ (y : Text). x ∷ y)
      (ap (λ (y : Text). take n t ++ y) (write_all_complete answers (drop n t) h) ∙ take-drop n t)

pub send-ok :
    (s : Settings) (w : Write) (kind : Text) (body : List Field) (c : Conn) {c' : Conn}
    → send s w kind body c ≡ ok c'
    → (raw : Text) × (encode (codes "FIX.4.4") (envelope s w kind c.outbound_seq ++ body) ≡ ok raw)
      × (c' ≡ wrote w raw c)
unfolding send
send-ok s w kind body c {c'} h =
    elim (Result-cases (encode (codes "FIX.4.4") (envelope s w kind c.outbound_seq ++ body))) [
      | inl (e, refused) ↦ absurd (ground arith)
      | inr (raw, encoded) ↦ elim (Bool-cases (write_all w.answers raw).1) [
        | inr partial ↦ absurd (ground arith)
        | inl complete ↦
            let all = write_all_complete w.answers raw complete in
            let eq : ok (wrote w (write_all w.answers raw).0 c) ≡ ok c' =
              rw (encoded, send, complete) at h in
            (raw, encoded, subst (λ (r : Text). c' ≡ wrote w r c) all (cc eq))
      ]
    ]
