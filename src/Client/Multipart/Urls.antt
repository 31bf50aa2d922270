-- ===== src/Client/Multipart/Urls.antt =====
-- The presigned URLs of the parts (client/multipart.go: RequestMoreParts, uploadMultipart).
use niks.Common.{
  ℕ, zero, suc, ◌+◌, ◌<◌, String, Option, none, some, List, [], ◌∷◌, Bool, true, false,
  if◌then◌else◌, ◌==◌, nat_eq, string_eq, contains, length, ◌≡◌, refl, subst, arith,
}
use niks.Client.Multipart.{Server, request_more_parts, next_url}

abbrev pub get_elem? : List String → ℕ → Option String
get_elem? [] i = none
get_elem? (u ∷ us) zero = some u
get_elem? (u ∷ us) (suc i) = get_elem? us i

-- The URL of a part: the one at the part's place among those given with the upload, or, behind
-- those, the one at its place in an answer of the server to a request for 100 more from some part
-- on.
pub data PartUrl (server : Server) (given : List String) (number : ℕ) (url : String) : Type 0 where
  given_url :
      (i : ℕ) → number ≡ suc i → get_elem? given i ≡ some url → PartUrl server given number url
  later_url :
      (start i : ℕ) (urls : List String)
      → length given < start
      → number ≡ start + i
      → server.part_urls start 100 ≡ some (urls, start)
      → get_elem? urls i ≡ some url
      → PartUrl server given number url

module _ (server : Server) where
  request_more_parts-answered :
      (start num : ℕ) (url : String) (urls : List String)
      → request_more_parts server start num ≡ some (url, urls)
      → server.part_urls start num ≡ some (url ∷ urls, start)
  unfolding request_more_parts
  request_more_parts-answered start num url urls h = by_answer (server.part_urls start num) h
    where
      by_urls :
          (us : List String) (answered : ℕ)
          → (elim us as (λ _. Option (String × List String)) [
            | [] ↦ none
            | v ∷ vs ↦
                if answered == start
                then if contains (v ∷ vs) "" then none else some (v, vs)
                else none
          ])
            ≡ some (url, urls)
          → (us ≡ url ∷ urls) × (answered ≡ start)
      by_urls [] answered h = cc
      by_urls (v ∷ vs) answered h = checked (answered == start) (contains (v ∷ vs) "") refl h
        where
          checked :
              (same empty : Bool)
              → (answered == start) ≡ same
              → ◌≡◌ {A = Option (String × List String)}
                  (if same then if empty then none else some (v, vs) else none)
                  (some (url, urls))
              → ((v ∷ vs) ≡ url ∷ urls) × (answered ≡ start)
          checked false empty s h = cc
          checked true true s h = cc
          checked true false s h = (cc, (nat_eq.test_iff answered start).0 s)

      by_answer :
          (o : Option (List String × ℕ))
          → (elim o as (λ _. Option (String × List String)) [
            | none ↦ none
            | some (us, answered) ↦ elim us as (λ _. Option (String × List String)) [
              | [] ↦ none
              | v ∷ vs ↦
                  if answered == start
                  then if contains (v ∷ vs) "" then none else some (v, vs)
                  else none
            ]
          ])
            ≡ some (url, urls)
          → o ≡ some (url ∷ urls, start)
      by_answer none h = cc
      by_answer (some (us, answered)) h = let (same, start_same) = by_urls us answered h in cc

  module _ (given : List String) where
    -- The URLs at hand are those of the parts from a number on, and those given are among them or
    -- used up.
    pub record Serves (number : ℕ) (urls : List String) : Type 0 where
      pub url_of :
          (i : ℕ) (url : String)
          → get_elem? urls i ≡ some url
          → PartUrl server given (number + i) url
      pub enough : length given < number + length urls

    pub given-Serves : Serves 1 given
    given-Serves = record { url_of = λ i url h. given_url i (omega arith) h; enough = omega arith }

    answered-Serves :
        (number : ℕ) (url : String) (urls : List String)
        → Serves number []
        → request_more_parts server number 100 ≡ some (url, urls)
        → Serves number (url ∷ urls)
    answered-Serves number url urls s h = record {
      url_of = λ i u g.
          later_url number i (url ∷ urls) (omega (arith, s.enough)) refl
            (request_more_parts-answered number 100 url urls h) g;
      enough = omega (arith, s.enough);
    }

    rest-Serves :
        (number : ℕ) (url : String) (urls : List String)
        → Serves number (url ∷ urls)
        → PartUrl server given number url × Serves (suc number) urls
    rest-Serves number url urls s = (
      subst (λ n. PartUrl server given n url) (omega arith) (s.url_of 0 url refl),
      record {
        url_of =
            λ i u g. subst (λ n. PartUrl server given n u) (omega arith) (s.url_of (suc i) u g);
        enough = omega (arith, s.enough);
      },
    )

    -- The loop takes the URL of the part's number.
    pub next_url-Serves :
        (number : ℕ) (urls urls' : List String) (url : String)
        → Serves number urls
        → next_url server number urls ≡ some (url, urls')
        → PartUrl server given number url × Serves (suc number) urls'
    unfolding next_url
    next_url-Serves number [] urls' url s h =
        rest-Serves number url urls' (answered-Serves number url urls' s h)
    next_url-Serves number (u ∷ us) urls' url s h =
        let same : u ≡ url = cc in
        let others : us ≡ urls' = cc in
        subst (λ v. PartUrl server given number v × Serves (suc number) urls') same
          (subst (λ vs. PartUrl server given number u × Serves (suc number) vs) others
            (rest-Serves number u us s))
