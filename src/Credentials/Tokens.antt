-- ===== src/Credentials/Tokens.antt =====
-- auth.go: what a token tells of the credentials that it was made from.
use zdm_proxy.Prelude.{
  ℕ, ◌≤◌, ◌≡◌, ◌≢◌, refl, true, none, some, List, [], ◌∷◌, ◌++◌, ◌∙◌, String, string_eq, bytes_eq,
  ◌==◌, inl, inr, length, take, eqb, arith, All, append_assoc, ◌↔◌, if◌then◌else◌, length-append,
  ap, Option-cases, suc,
}
use zdm_proxy.Credentials.{
  AuthCredentials, no_auth_credentials, marshal, read_bytes, without_delimiter, unmarshal,
  read_username_and_password, parse_credentials_from_request, with_credentials, without_credentials,
  mechanism, initial_response, dse_authenticator,
}

-- No byte is the delimiter.
abbrev pub IsPlain : List ℕ → Type 0
IsPlain = All (λ b. b ≢ 0)

take-append : (xs ys : List ℕ) → take (length xs) (xs ++ ys) ≡ xs
take-append [] ys = refl
take-append (x ∷ xs) ys = ap (λ l. x ∷ l) (take-append xs ys)

without_delimiter-append : (xs : List ℕ) → without_delimiter (xs ++ (0 ∷ [])) ≡ xs
without_delimiter-append xs =
    ap (λ n. take n (xs ++ (0 ∷ []))) (omega (arith, length-append xs (0 ∷ [])))
    ∙ take-append xs (0 ∷ [])

read_bytes-append :
    (xs rest : List ℕ) → IsPlain xs → read_bytes (xs ++ (0 ∷ rest)) ≡ some (xs ++ (0 ∷ []), rest)
unfolding read_bytes
read_bytes-append [] rest h = refl
read_bytes-append (x ∷ xs) rest h = ground (arith, read_bytes-append xs rest h.1, h.0)

auth_id_field :
    (xs : List ℕ)
    → (if eqb (length (xs ++ (0 ∷ []))) 1 then [] else without_delimiter (xs ++ (0 ∷ []))) ≡ xs
auth_id_field [] = refl
auth_id_field (x ∷ xs) =
    ground (arith, without_delimiter-append (x ∷ xs), length-append xs (0 ∷ []))

read_username_and_password-append :
    (username password : List ℕ) (c : AuthCredentials)
    → IsPlain username
    → IsPlain password
    → read_username_and_password (username ++ (0 ∷ (password ++ (0 ∷ [])))) c
      ≡ (record c { username = username; password = password }, true)
unfolding read_username_and_password
read_username_and_password-append username password c u p = ground (
  arith,
  read_bytes-append username (password ++ (0 ∷ [])) u,
  read_bytes-append password [] p,
  without_delimiter-append username,
  without_delimiter-append password,
)

-- The token of plain credentials, whose fields have no byte 0, is read back as those credentials,
-- whatever the credentials that are read into held before.
pub unmarshal-marshal :
    (c before : AuthCredentials)
    → IsPlain c.auth_id
    → IsPlain c.username
    → IsPlain c.password
    → unmarshal (marshal c) before ≡ (c, true)
unfolding unmarshal marshal
unmarshal-marshal c before a u p =
    let whole =
      append_assoc c.auth_id (0 ∷ (c.username ++ (0 ∷ c.password))) (0 ∷ [])
      ∙ ap (λ l. c.auth_id ++ (0 ∷ l)) (append_assoc c.username (0 ∷ c.password) (0 ∷ [])) in
    let rest = c.username ++ (0 ∷ (c.password ++ (0 ∷ []))) in
    let read = ap read_bytes whole ∙ read_bytes-append c.auth_id rest a in
    ground (
      arith,
      read,
      auth_id_field c.auth_id,
      read_username_and_password-append c.username c.password
          (record before { auth_id = c.auth_id }) u p,
    )

abbrev pub delimiters : List ℕ → ℕ
delimiters [] = 0
delimiters (b ∷ bs) = if eqb b 0 then suc (delimiters bs) else delimiters bs

read_bytes-none : (bs : List ℕ) → read_bytes bs ≡ none → delimiters bs ≡ 0
unfolding read_bytes
read_bytes-none [] e = refl
read_bytes-none (b ∷ bs) e = elim (Option-cases (read_bytes bs)) [
  | inl h ↦ ground (arith, h, e, read_bytes-none bs h)
  | inr (r, h) ↦ absurd (ground (arith, h, e))
]

read_bytes-some :
    (bs line rest : List ℕ)
    → read_bytes bs ≡ some (line, rest)
    → delimiters bs ≡ suc (delimiters rest)
unfolding read_bytes
read_bytes-some [] line rest e = cc
read_bytes-some (b ∷ bs) line rest e = elim (Option-cases (read_bytes bs)) [
  | inl h ↦ ground (arith, h, e)
  | inr (r, h) ↦ ground (arith, h, e, read_bytes-some bs r.0 r.1)
]

delimiters-append : (bs : List ℕ) → delimiters (bs ++ (0 ∷ [])) ≡ suc (delimiters bs)
delimiters-append [] = refl
delimiters-append (b ∷ bs) = ground (arith, delimiters-append bs)

read_username_and_password_reads :
    (source : List ℕ) (c : AuthCredentials)
    → ((read_username_and_password source c).1 ≡ true) ↔ (2 ≤ delimiters source)
unfolding read_username_and_password
read_username_and_password_reads source c = elim (Option-cases (read_bytes source)) [
  | inl h ↦ ground (arith, h, read_bytes-none source h)
  | inr ((line, rest), h) ↦ elim (Option-cases (read_bytes rest)) [
    | inl h' ↦ ground (arith, h, h', read_bytes-some source line rest h, read_bytes-none rest h')
    | inr ((line', rest'), h') ↦
        ground
          (arith, h, h', read_bytes-some source line rest h, read_bytes-some rest line' rest' h')
  ]
]

-- A token is read as credentials exactly if it has at least two delimiters; what follows a third one
-- is ignored.
pub unmarshal_reads :
    (token : List ℕ) (c : AuthCredentials) → ((unmarshal token c).1 ≡ true) ↔ (2 ≤ delimiters token)
unfolding unmarshal
unmarshal_reads token c =
    let count = delimiters-append token in
    let ended = token ++ (0 ∷ []) in
    elim (Option-cases (read_bytes ended)) [
      | inl h ↦ absurd (ground (arith, h, read_bytes-none ended h, count))
      | inr ((line, rest), h) ↦
          let c' = record c {
            auth_id = if eqb (length line) 1 then [] else without_delimiter line;
          } in
          ground (
            arith,
            h,
            count,
            read_bytes-some ended line rest h,
            read_username_and_password_reads rest c',
          )
    ]

-- What the authenticator answers to AUTHENTICATE, of credentials whose fields have no byte 0, is read
-- by ParseCredentialsFromRequest as no credentials if the authenticator is DSE's, and as those
-- credentials otherwise.
pub parse-initial_response :
    (authenticator : String) (c : AuthCredentials)
    → IsPlain c.auth_id
    → IsPlain c.username
    → IsPlain c.password
    → parse_credentials_from_request (some (initial_response authenticator c))
      ≡ (if authenticator == dse_authenticator then without_credentials else with_credentials c)
unfolding parse_credentials_from_request initial_response
parse-initial_response authenticator c a u p = ground (
  arith,
  unmarshal-marshal c no_auth_credentials a u p,
  unmarshal_reads (marshal c) no_auth_credentials,
  bytes_eq.equal_iff (marshal c) mechanism,
)
