-- ===== src/Web/Setup/Addresses.antt =====
-- The address and the prefix of the server of pkg/web/server.go.
use ctop.Prelude.{
  ℕ, ◌≡◌, refl, ◌∙◌, Bool, true, false, ◌||◌, [], ◌∷◌, ◌++◌, arith, Bool-cases, ◌⊎◌, inl, inr, ◌==◌,
}
use ctop.Prelude.Texts.{Text, codes, text_eq, trim_space, has_prefix, contains}
use ctop.Prelude.Split.{trim_right_byte}
use ctop.Web.Setup.{rooted, clean_url_prefix, server_addr}

-- Whether the last byte is `b`.
unfoldable pub ends_in : ℕ → Text → Bool
ends_in b [] = false
ends_in b (c ∷ []) = c == b
ends_in b (c ∷ d ∷ cs) = ends_in b (d ∷ cs)

abbrev pub starts_in : ℕ → Text → Bool
starts_in b [] = false
starts_in b (c ∷ cs) = c == b

ends_in-trim_right_byte : (b : ℕ) (s : Text) → ends_in b (trim_right_byte b s) ≡ false
unfolding ends_in trim_right_byte
ends_in-trim_right_byte b [] = refl
ends_in-trim_right_byte b (c ∷ cs) = ground (arith, ends_in-trim_right_byte b cs)

trim_right_byte-starts :
    (b : ℕ) (s : Text)
    → (trim_right_byte b s ≡ []) ⊎ (starts_in b (trim_right_byte b s) ≡ starts_in b s)
unfolding trim_right_byte
trim_right_byte-starts b [] = inl refl
trim_right_byte-starts b (c ∷ cs) = ground arith

rooted-starts : (p : Text) → starts_in b'/' (rooted p) ≡ true
unfolding has_prefix
rooted-starts [] = refl
rooted-starts (c ∷ p) = ground arith

trimmed_slashes :
    (p : Text)
    → ((trim_right_byte b'/' (rooted p) ≡ [])
        ⊎ (starts_in b'/' (trim_right_byte b'/' (rooted p)) ≡ true))
      × (ends_in b'/' (trim_right_byte b'/' (rooted p)) ≡ false)
trimmed_slashes p =
    let starts = trim_right_byte-starts b'/' (rooted p) in
    let slash = rooted-starts p in
    (
      elim starts [ inl e ↦ inl e | inr e ↦ inr (e ∙ slash) ],
      ends_in-trim_right_byte b'/' (rooted p),
    )

-- The prefix of the server's paths is empty, or it starts with a slash; it never ends in one.
pub clean_url_prefix-slashes :
    (prefix : Text)
    → ((clean_url_prefix prefix ≡ []) ⊎ (starts_in b'/' (clean_url_prefix prefix) ≡ true))
      × (ends_in b'/' (clean_url_prefix prefix) ≡ false)
unfolding clean_url_prefix ends_in
clean_url_prefix-slashes prefix =
    elim (Bool-cases (text_eq (trim_space prefix) [] || text_eq (trim_space prefix) (codes "/"))) [
      | inl e ↦ rw e (inl refl, refl)
      | inr e ↦ rw e (trimmed_slashes (trim_space prefix))
    ]

addr_of-colon :
    (a : Text)
    → (contains (codes "127.0.0.1:" ++ a) (codes ":") ≡ true)
      × (contains a (codes ":") ≡ true → contains (codes "127.0.0.1" ++ a) (codes ":") ≡ true)
unfolding contains has_prefix
addr_of-colon a = (refl, λ h. h)

default_addr : contains (codes "127.0.0.1:9090") (codes ":") ≡ true
unfolding contains has_prefix
default_addr = refl

no_colon : (a : Text) → has_prefix a (codes ":") ≡ false → starts_in b':' a ≡ false
unfolding has_prefix
no_colon [] h = refl
no_colon (c ∷ a) h = ground (arith, h)

-- The address that the server listens at has a port: a colon that is not its first byte.
pub server_addr-port :
    (addr : Text)
    → (contains (server_addr addr) (codes ":") ≡ true) × (starts_in b':' (server_addr addr) ≡ false)
unfolding server_addr
server_addr-port addr =
    let a = trim_space addr in
    let (bare, colon) = addr_of-colon a in
    elim (Bool-cases (text_eq a [])) [
      | inl e ↦ rw e (default_addr, refl)
      | inr e ↦ elim (Bool-cases (contains a (codes ":"))) [
        | inr k ↦ rw (e, k) (bare, refl)
        | inl k ↦ elim (Bool-cases (has_prefix a (codes ":"))) [
          | inl p ↦ rw (e, k, p) (colon k, refl)
          | inr p ↦ rw (e, k, p) (k, no_colon a p)
        ]
      ]
    ]
