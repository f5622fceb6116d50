-- ===== src/Update/Checked.antt =====
-- Which bytes an update runs.
use hbc.Base.{
  ℕ, ◌*◌, ◌≡◌, refl, sym, ap, ◌∙◌, subst, Bool, true, false, not, Option, none, some, List, [],
  if◌then◌else◌, length, take, Bool-cases, inl, inr, some-injective,
}
use hbc.Apps.Text.{Text}
use hbc.Http.Fetch.{
  Http, HttpRes, httpr_ok, Sscanf, Net, Result, http_func, http_request, http_get_result,
}
use hbc.Update.{
  UpdateState, update_idle, update_can_update, UpdateInfo, Update, hash2ascii, same_hash, Execution,
  returns_false, crashes, downloads, runs, check_download, download, update_execute,
}
use hbc.Update.Hex.{IsBytes, same_hash-hash2ascii}

-- The bytes have the announced hash.
abbrev IsChecked : (List ℕ → List ℕ) → Option Text → List ℕ → Type 0
IsChecked sha1 hash bytes =
    (expected : Text) × (hash ≡ some expected)
    × (same_hash 40 (hash2ascii (sha1 bytes)) expected ≡ true)

runs-injective : {a b : List ℕ} → runs a ≡ runs b → a ≡ b
runs-injective e = cc

check_download-IsChecked :
    (sha1 : List ℕ → List ℕ) (hash : Option Text) (o : Option Result) (bytes : List ℕ)
    → check_download sha1 hash o ≡ runs bytes
    → IsChecked sha1 hash bytes
unfolding check_download
check_download-IsChecked sha1 hash none bytes e = cc
check_download-IsChecked sha1 hash (some r) bytes e = by_res r.res e
  where
    got : List ℕ
    got = take r.size (elim r.content [ none ↦ [] | some c ↦ c ])

    compared : Option Text → Execution
    compared h = elim h [
      | none ↦ crashes
      | some expected ↦
          if same_hash 40 (hash2ascii (sha1 got)) expected then runs got else returns_false
    ]

    answer : HttpRes → Execution
    answer k = elim k [ httpr_ok ↦ compared hash | _ ↦ returns_false ]

    by_hash : (h : Option Text) → hash ≡ h → compared h ≡ runs bytes → IsChecked sha1 hash bytes
    by_hash none q f = cc
    by_hash (some expected) q f =
        elim (Bool-cases (same_hash 40 (hash2ascii (sha1 got)) expected)) [
          | inl g ↦
              let same : got ≡ bytes =
                runs-injective (sym (ap (λ b. if b then runs got else returns_false) g) ∙ f) in
              (expected, q, subst (λ l. same_hash 40 (hash2ascii (sha1 l)) expected ≡ true) same g)
          | inr g ↦
              let wrong : returns_false ≡ runs bytes =
                sym (ap (λ b. if b then runs got else returns_false) g) ∙ f in
              cc
        ]

    by_res : (k : HttpRes) → answer k ≡ runs bytes → IsChecked sha1 hash bytes
    by_res httpr_ok f = by_hash hash refl f
    by_res _ f = cc

module _ (millisecs : ℕ → ℕ → ℕ) (scan : Sscanf) (agent : Text) (sha1 : List ℕ → List ℕ)
    (net : Net) where
  download-IsChecked :
      (i : UpdateInfo) (h : Http) (bytes : List ℕ)
      → download millisecs scan agent sha1 net i h ≡ runs bytes
      → IsChecked sha1 i.hash bytes
  unfolding download
  download-IsChecked i h bytes e = by_uri i.uri e
    where
      polled : Http → Execution
      polled u =
          if not u.running then returns_false else check_download sha1 i.hash (http_get_result u).0

      served : Option Http → Execution
      served o = elim o [ none ↦ downloads | some u ↦ polled u ]

      requested : Option (Bool × Http) → Execution
      requested o = elim o [
        | none ↦ crashes
        | some (false, _) ↦ returns_false
        | some (true, t) ↦ served (http_func millisecs scan agent net t)
      ]

      asked : Option Text → Execution
      asked o = elim o [
        | none ↦ crashes
        | some uri ↦ requested (http_request uri (4 * 1024 * 1024) h)
      ]

      by_served : (o : Option Http) → served o ≡ runs bytes → IsChecked sha1 i.hash bytes
      by_served none f = cc
      by_served (some u) f = elim (Bool-cases u.running) [
        | inl q ↦
            let g =
              sym (
                ap
                  (λ b.
                    if not b
                    then returns_false
                    else check_download sha1 i.hash (http_get_result u).0)
                  q)
              ∙ f in
            check_download-IsChecked sha1 i.hash (http_get_result u).0 bytes g
        | inr q ↦
            let g : returns_false ≡ runs bytes =
              sym (
                ap
                  (λ b.
                    if not b
                    then returns_false
                    else check_download sha1 i.hash (http_get_result u).0)
                  q)
              ∙ f in
            cc
      ]

      by_request :
          (o : Option (Bool × Http)) → requested o ≡ runs bytes → IsChecked sha1 i.hash bytes
      by_request none f = cc
      by_request (some (false, t)) f = cc
      by_request (some (true, t)) f = by_served (http_func millisecs scan agent net t) f

      by_uri : (o : Option Text) → asked o ≡ runs bytes → IsChecked sha1 i.hash bytes
      by_uri none f = cc
      by_uri (some uri) f = by_request (http_request uri (4 * 1024 * 1024) h) f

  IsChecked-sha1 :
      ((x : List ℕ) → IsBytes (sha1 x) × (length (sha1 x) ≡ 20))
      → (hash : Option Text) (a b : List ℕ) → IsChecked sha1 hash a
      → IsChecked sha1 hash b
      → sha1 a ≡ sha1 b
  IsChecked-sha1 law hash a b (text, g, k) (text', g', k') =
      let same : text' ≡ text = some-injective (sym g' ∙ g) in
      same_hash-hash2ascii (sha1 a) (sha1 b) text (law a).0 (law b).0 (law a).1 (law b).1 k
        (subst (λ x. same_hash 40 (hash2ascii (sha1 b)) x ≡ true) same k')

  -- An update runs: it was available and confirmed, and its bytes have the announced hash.
  pub record Ran (confirmed : Bool) (s t : Update) (bytes : List ℕ) : Type 0 where
    pub could : s.us ≡ update_can_update
    pub asked : confirmed ≡ true
    pub idle : t.us ≡ update_idle
    pub forgotten : t.info ≡ none
    pub checked :
        (i : UpdateInfo) × (s.info ≡ some i)
        × IsChecked sha1 i.hash bytes
        × ((other : List ℕ) → IsChecked sha1 i.hash other → sha1 other ≡ sha1 bytes)

  -- update_execute passes bytes to loader_reloc only if an update was available and confirmed and
  -- the hexadecimal text of their SHA-1 is the first 40 characters of the announced hash, which
  -- all other bytes with that text share: SHA-1 gives 20 bytes. The update is forgotten then and
  -- the state is idle.
  pub update_execute-Ran :
      (confirmed : Bool) (s t : Update) (h : Http) (bytes : List ℕ)
      → ((x : List ℕ) → IsBytes (sha1 x) × (length (sha1 x) ≡ 20))
      → update_execute millisecs scan agent sha1 confirmed net s h ≡ (runs bytes, t)
      → Ran confirmed s t bytes
  unfolding update_execute
  update_execute-Ran confirmed s t h bytes law e = by_state s.us refl e
    where
      idle_update : Update
      idle_update = record s { us = update_idle; info = none }

      confirm : Bool → UpdateInfo → Execution × Update
      confirm c i =
          if not c
          then (returns_false, idle_update)
          else (download millisecs scan agent sha1 net i h, idle_update)

      with_info : Option UpdateInfo → Execution × Update
      with_info o = elim o [ none ↦ (crashes, idle_update) | some i ↦ confirm confirmed i ]

      answer : UpdateState → Execution × Update
      answer u = elim u [ update_can_update ↦ with_info s.info | _ ↦ (returns_false, s) ]

      by_confirmed :
          (c : Bool) (i : UpdateInfo)
          → confirmed ≡ c
          → s.us ≡ update_can_update
          → s.info ≡ some i
          → confirm c i ≡ (runs bytes, t)
          → Ran confirmed s t bytes
      by_confirmed false i c u q f = let g = ap (λ p. p.0) f in cc
      by_confirmed true i c u q f =
          let same : idle_update ≡ t = ap (λ p. p.1) f in
          record {
            could = u;
            asked = c;
            idle = sym (ap (λ x. x.us) same);
            forgotten = sym (ap (λ x. x.info) same);
            checked =
                let good = download-IsChecked i h bytes (ap (λ p. p.0) f) in
                (i, q, good, λ other k. IsChecked-sha1 law i.hash other bytes k good);
          }

      by_info :
          (o : Option UpdateInfo)
          → s.us ≡ update_can_update
          → s.info ≡ o
          → with_info o ≡ (runs bytes, t)
          → Ran confirmed s t bytes
      by_info none u q f = let g = ap (λ p. p.0) f in cc
      by_info (some i) u q f = by_confirmed confirmed i refl u q f

      by_state : (u : UpdateState) → s.us ≡ u → answer u ≡ (runs bytes, t) → Ran confirmed s t bytes
      by_state update_can_update u f = by_info s.info u refl f
      by_state _ u f = let g = ap (λ p. p.0) f in cc
