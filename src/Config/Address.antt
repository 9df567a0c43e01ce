-- ===== src/Config/Address.antt =====
-- gpu-proxy-cpp/src/config.cpp: the address that is printed is the address that is read.
use compute_market.Base.{
  ℕ, ◌≡◌, ◌≢◌, ◌<◌, refl, ap, ◌∙◌, false, [], ◌∷◌, ◌++◌, none, some, ◌==◌, arith, All, Bool-cases,
  inl, inr,
}
use compute_market.Base.Text.{Text, value_of, to_string}
use compute_market.Base.Text.Numerals.{
  IsDecimal, Starts, value_of-to_string, to_string-IsDecimal, to_string-Starts,
}
use compute_market.Config.{
  is_space, clamp16, split_colon, skip_spaces, leading_digits, read_signed, read_uint16,
  parse_host_port,
}

abbrev pub HasNoColon : Text → Type 0
HasNoColon s = All (λ c. c ≢ b':') s

split_colon-append :
    (host port : Text) → HasNoColon host → split_colon (host ++ b':' ∷ port) ≡ some (host, port)
unfolding split_colon
split_colon-append [] port h = refl
split_colon-append (c ∷ host) port h = elim (Bool-cases (c == b':')) [
  | inl e ↦ absurd (h.0 (ground arith))
  | inr e ↦ rw (e, split_colon-append host port h.1)
]

split_colon-none : (url : Text) → HasNoColon url → split_colon url ≡ none
unfolding split_colon
split_colon-none [] h = refl
split_colon-none (c ∷ url) h = elim (Bool-cases (c == b':')) [
  | inl e ↦ absurd (h.0 (ground arith))
  | inr e ↦ rw (e, split_colon-none url h.1)
]

leading_digits-IsDecimal : (s : Text) → All IsDecimal s → leading_digits s ≡ s
unfolding leading_digits
leading_digits-IsDecimal [] h = refl
leading_digits-IsDecimal (c ∷ s) h = ground (arith, leading_digits-IsDecimal s h.1)

not_space : (c : ℕ) → IsDecimal c → is_space c ≡ false
not_space c h = ground arith

no_sign : (c : ℕ) → IsDecimal c → ((c == b'-') ≡ false) × ((c == b'+') ≡ false)
no_sign c h = (ground arith, ground arith)

fits : (n : ℕ) → n < 65536 → clamp16 n ≡ n
fits n h = ground arith

read_signed-IsDecimal :
    (c : ℕ) (s : Text)
    → IsDecimal c
    → All IsDecimal s
    → value_of 10 0 (c ∷ s) < 65536
    → read_signed (c ∷ s) ≡ value_of 10 0 (c ∷ s)
unfolding read_signed
read_signed-IsDecimal c s d h v =
    rw ((no_sign c d).0, (no_sign c d).1)
      (ap (λ t. clamp16 (value_of 10 0 t)) (leading_digits-IsDecimal (c ∷ s) (d, h))
        ∙ fits (value_of 10 0 (c ∷ s)) v)

read_uint16-IsDecimal :
    (old : ℕ) (s : Text)
    → Starts s
    → All IsDecimal s
    → value_of 10 0 s < 65536
    → read_uint16 old s ≡ value_of 10 0 s
unfolding read_uint16 skip_spaces
read_uint16-IsDecimal old [] a h v = absurd a
read_uint16-IsDecimal old (c ∷ s) a h v =
    rw (not_space c h.0, read_uint16) (read_signed-IsDecimal c s h.0 h.1 v)

-- An address that is a host without a colon, a colon and a printed port below 2^16 is read as that host and that
-- port; a host alone gets the port 3333.
pub parse_host_port-append :
    (host : Text) (port old : ℕ)
    → HasNoColon host
    → port < 65536
    → (parse_host_port (host ++ b':' ∷ to_string port) old ≡ (host, port))
      × (parse_host_port host old ≡ (host, 3333))
unfolding parse_host_port
parse_host_port-append host port old h b = (
  rw (split_colon-append host (to_string port) h, parse_host_port)
      (ap (λ n. (host, n))
        (read_uint16-IsDecimal old (to_string port) (to_string-Starts port)
            (to_string-IsDecimal port) (rw (value_of-to_string port) b)
          ∙ value_of-to_string port)),
  rw (split_colon-none host h, parse_host_port),
)
