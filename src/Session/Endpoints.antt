-- ===== src/Session/Endpoints.antt =====
-- A session that was fetched over a secure channel names no endpoint on a weaker one.
use jmaplib.Prelude.{
  codes, Text, false, List, [], ◌∷◌, ◌==◌, ==_iff, ==_ne, ne_of_==_false, true, nat_eq, list_eq,
  ◌≡◌, ◌≢◌, ◌↔◌, ◌⊎◌, inl, inr, refl, arith, All, Bool-cases, ok, >>=-eq-ok, ok-injective,
}
use jmaplib.Prelude.Dict.{Dict}
use jmaplib.Json.{Json}
use jmaplib.Patch.{contains}
use jmaplib.Session.{
  secure_schemes, clear_schemes, loopback_hosts, mapping_value, member_of, accounts_part,
  primary_part, capabilities_part, Session, Python, Urls, Endpoint, api, download, upload,
  event_source, is_downgrade, admit, absolute, read_session, read_accounts, read_primary,
  check_hops, check_session_redirects,
}

-- A URL of a scheme that credentials may go to from a URL of `base_scheme`: none or a secure one, or
-- a clear one where the base is not https or the host is the machine itself.
abbrev pub IsAllowed : Urls → Text → Text → Type 0
IsAllowed urls base_scheme url =
    ((urls.scheme url ≡ []) ⊎ ((urls.scheme url ≡ codes "https") ⊎ (urls.scheme url ≡ codes "wss")))
    ⊎ (((urls.scheme url ≡ codes "http") ⊎ (urls.scheme url ≡ codes "ws"))
        × ((base_scheme ≢ codes "https")
            ⊎ ((urls.host url ≡ codes "127.0.0.1")
                ⊎ ((urls.host url ≡ codes "::1") ⊎ (urls.host url ≡ codes "localhost")))))

-- Empty, or allowed from the URL that it was read at.
abbrev pub IsSafe : Urls → Text → Text → Type 0
IsSafe urls base_url url = (url ≡ []) ⊎ IsAllowed urls (urls.scheme base_url) url

one_of_two : (a b x : Text) → contains (a ∷ b ∷ []) x ≡ true → (x ≡ a) ⊎ (x ≡ b)
unfolding contains
one_of_two a b x h = ground (arith, ==_iff a x, ==_iff b x)

one_of_three : (a b c x : Text) → contains (a ∷ b ∷ c ∷ []) x ≡ true → (x ≡ a) ⊎ ((x ≡ b) ⊎ (x ≡ c))
unfolding contains
one_of_three a b c x h = ground (arith, ==_iff a x, ==_iff b x, ==_iff c x)

module _ (urls : Urls) (url base_scheme : Text) where
  is_downgrade-IsAllowed :
      is_downgrade urls url base_scheme ≡ false → IsAllowed urls base_scheme url
  unfolding is_downgrade
  is_downgrade-IsAllowed h = elim (Bool-cases (contains secure_schemes (urls.scheme url))) [
    | inl secure ↦ inl (inr (one_of_two _ _ _ secure))
    | inr weak ↦ elim (Bool-cases (urls.scheme url == [])) [
      | inl none ↦ inl (inl ((==_iff _ _).0 none))
      | inr some ↦ elim (Bool-cases (contains clear_schemes (urls.scheme url))) [
        | inr foreign ↦ cc (rw (weak, some, foreign) at h)
        | inl clear ↦ inr (
          one_of_two _ _ _ clear,
          elim (Bool-cases (base_scheme == codes "https")) [
            | inr plain ↦ inl (ne_of_==_false _ _ plain)
            | inl https ↦ inr (elim (Bool-cases (contains loopback_hosts (urls.host url))) [
              | inl here ↦ one_of_three _ _ _ _ here
              | inr there ↦ cc (rw (weak, some, clear, https, there) at h)
            ])
          ],
        )
      ]
    ]
  ]

  is_downgrade_lem : IsAllowed urls base_scheme url → is_downgrade urls url base_scheme ≡ false
  unfolding is_downgrade
  is_downgrade_lem h = ground (
    arith,
    ==_iff (codes "https") (urls.scheme url),
    ==_iff (codes "wss") (urls.scheme url),
    ==_iff (urls.scheme url) [],
    ==_iff (codes "http") (urls.scheme url),
    ==_iff (codes "ws") (urls.scheme url),
    ==_iff base_scheme (codes "https"),
    ==_iff (codes "127.0.0.1") (urls.host url),
    ==_iff (codes "::1") (urls.host url),
    ==_iff (codes "localhost") (urls.host url),
  )

admit-IsSafe :
    (urls : Urls) (base_url : Text) (field : Endpoint) (resolved url : Text)
    → base_url ≢ []
    → urls.scheme base_url ≢ []
    → admit urls base_url field resolved ≡ ok url
    → IsSafe urls base_url url
unfolding admit
admit-IsSafe urls base_url field resolved url known named h = elim (Bool-cases (resolved == [])) [
  | inl nothing ↦ inl (ground (arith, ==_iff resolved []))
  | inr something ↦ inr (
      is_downgrade-IsAllowed urls url (urls.scheme base_url)
        (ground (arith, ==_ne base_url [] known, ==_ne (urls.scheme base_url) [] named)))
]

absolute-IsSafe :
    (py : Python) (urls : Urls) (base_url : Text) (field : Endpoint) (value : Json) (url : Text)
    → base_url ≢ []
    → urls.scheme base_url ≢ []
    → absolute py urls base_url field value ≡ ok url
    → IsSafe urls base_url url
unfolding absolute
absolute-IsSafe py urls base_url field value url known named h =
    admit-IsSafe urls base_url field _ url known named h

check_hops_down :
    (urls : Urls) (scheme : Text) (hops : List Text)
    → check_hops urls scheme hops ≡ ok tt
    → All (IsAllowed urls scheme) hops
unfolding check_hops
check_hops_down urls scheme [] h = tt
check_hops_down urls scheme (hop ∷ hops) h = elim (Bool-cases (is_downgrade urls hop scheme)) [
  | inl weaker ↦ cc (rw weaker at h)
  | inr fine ↦
      (is_downgrade-IsAllowed urls hop scheme fine, check_hops_down urls scheme hops (rw fine at h))
]

check_hops_up :
    (urls : Urls) (scheme : Text) (hops : List Text)
    → All (IsAllowed urls scheme) hops
    → check_hops urls scheme hops ≡ ok tt
unfolding check_hops
check_hops_up urls scheme [] h = refl
check_hops_up urls scheme (hop ∷ hops) h =
    rw (is_downgrade_lem urls hop scheme h.0) (check_hops_up urls scheme hops h.1)

-- A session document fetched from a URL that is not empty and has a scheme is read only if each of
-- its four endpoint URLs is empty or may be sent credentials from there: it has no scheme, https or
-- wss, or it has http or ws and the URL of the document is not https or the host is 127.0.0.1, ::1 or localhost.
pub read_session-IsSafe :
    (py : Python) (urls : Urls) (base_url : Text) (body : Dict Text Json) (s : Session)
    → base_url ≢ []
    → urls.scheme base_url ≢ []
    → read_session py urls base_url body ≡ ok s
    → IsSafe urls base_url s.api_url
      × IsSafe urls base_url s.download_url
      × IsSafe urls base_url s.upload_url
      × IsSafe urls base_url s.event_source_url
unfolding read_session
read_session-IsSafe py urls base_url body s known named h0 =
    let (raw_accounts, _, h1) =
      >>=-eq-ok (mapping_value py accounts_part (member_of (codes "accounts") body)) _ h0 in
    let (raw_primary, _, h2) =
      >>=-eq-ok (mapping_value py primary_part (member_of (codes "primaryAccounts") body)) _ h1 in
    let (capabilities, _, h3) =
      >>=-eq-ok (mapping_value py capabilities_part (member_of (codes "capabilities") body)) _ h2 in
    let (accounts, _, h4) = >>=-eq-ok (read_accounts py [] raw_accounts) _ h3 in
    let (primary, _, h5) = >>=-eq-ok (read_primary [] raw_primary) _ h4 in
    let (api_url, at_api, h6) =
      >>=-eq-ok (absolute py urls base_url api (member_of (codes "apiUrl") body)) _ h5 in
    let (download_url, at_download, h7) =
      >>=-eq-ok (absolute py urls base_url download (member_of (codes "downloadUrl") body)) _ h6 in
    let (upload_url, at_upload, h8) =
      >>=-eq-ok (absolute py urls base_url upload (member_of (codes "uploadUrl") body)) _ h7 in
    let (event_source_url, at_source, h9) =
      >>=-eq-ok (absolute py urls base_url event_source (member_of (codes "eventSourceUrl") body)) _
        h8 in
    let made = ok-injective h9 in
    rw (← made) (
      absolute-IsSafe py urls base_url api _ api_url known named at_api,
      absolute-IsSafe py urls base_url download _ download_url known named at_download,
      absolute-IsSafe py urls base_url upload _ upload_url known named at_upload,
      absolute-IsSafe py urls base_url event_source _ event_source_url known named at_source,
    )

-- A fetch passes the check of its redirects exactly when each hop has no scheme, https or wss, or has
-- http or ws and the URL that was requested is not https or the hop's host is 127.0.0.1, ::1 or
-- localhost.
pub check_session_redirects_iff :
    (urls : Urls) (requested : Text) (hops : List Text)
    → (check_session_redirects urls requested hops ≡ ok tt)
      ↔ All (IsAllowed urls (urls.scheme requested)) hops
unfolding check_session_redirects
check_session_redirects_iff urls requested hops = (
  check_hops_down urls (urls.scheme requested) hops,
  check_hops_up urls (urls.scheme requested) hops,
)
