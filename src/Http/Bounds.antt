-- ===== src/Http/Bounds.antt =====
-- The sizes of what `read_request` and `request` of service/src/http.rs accept.
use ahara_collector.Prelude.{
  ℕ, ◌≤◌, ◌≡◌, refl, sym, subst, Option, none, some, [], ◌∷◌, ◌++◌, Text, Bytes, arith, length,
  length-take, ap, ◌∙◌, ltb, is_empty, ◌==◌, Bool-cases, Option-cases, inl, inr, ◌⊎◌,
}
use ahara_collector.Prelude.Results.{
  Result, ok, err, Holds, holds, fails, Holds→, Holds-map, Holds-bind, Holds-then, Holds-self,
}
use ahara_collector.Prelude.Utf8.{from_utf8}
use ahara_collector.Prelude.Parsing.{trim_end}
use ahara_collector.Prelude.Parsing.{to_ascii_lowercase}
use ahara_collector.Maps.{insert_key}
use ahara_collector.Http.{Request}
use ahara_collector.Http.Lines.{
  HttpError, max_body, Line, last, more, failed, header_of, split_line, read_header, read_head,
}
use ahara_collector.Http.Server.{
  Headers, add_header, content_length, read_exact, request_line, read_body, read_request,
}

Line-cases :
    {S : Type 0} (l : Line S)
    → (l ≡ last) ⊎ (((s : S) × (l ≡ more s)) ⊎ ((e : HttpError) × (l ≡ failed e)))
Line-cases last = inl refl
Line-cases (more s) = inr (inl (s, refl))
Line-cases (failed e) = inr (inr (e, refl))

-- A state that every header line keeps in bounds stays so up to the end of the head.
module _ {S : Type 0} (P : S → Type 0) (add : Option (Text × Text) → S → Result HttpError S) where
  data Kept : Line S → Type 0 where
    at_end : Kept last
    going : {s : S} → P s → Kept (more s)
    broken : {e : HttpError} → Kept (failed e)

  module _ (keeps : (header : Option (Text × Text)) (s : S) → Holds P (add header s)) where
    added-Kept :
        (r : Result HttpError S) → Holds P r → Kept (elim r [ ok s' ↦ more s' | err e ↦ failed e ])
    added-Kept (ok s) (holds p) = going p
    added-Kept (err e) fails = broken

    read_header-Kept : (bytes : Bytes) (s : S) → Kept (read_header add bytes s)
    unfolding read_header
    read_header-Kept bytes s = elim (Option-cases (from_utf8 bytes)) [
      | inl e ↦ rw (e, read_header) broken
      | inr (line, e) ↦ elim (Bool-cases (is_empty (trim_end line))) [
        | inl b ↦ rw (e, b, read_header) at_end
        | inr b ↦
            rw (e, b, read_header)
              (added-Kept (add (header_of (trim_end line)) s) (keeps (header_of (trim_end line)) s))
      ]
    ]

    going→ : (l : Line S) (s : S) → l ≡ more s → Kept l → P s
    going→ l s e k = value s (subst Kept e k)
      where
        value : (s : S) → Kept (more s) → P s
        value s (going p) = p

    -- What the lines before the end of the head keep, the head keeps.
    pub read_head-keeps :
        (stream line : Bytes) (s : S)
        → P s
        → Holds (λ (a : S × Bytes). P a.0) (read_head add line s stream)
    unfolding read_head
    read_head-keeps [] line s p = elim (Line-cases (read_header add line s)) [
      | inl e ↦ rw (e, read_head) (holds p)
      | inr (inl (s', e)) ↦ rw (e, read_head) (holds (going→ _ s' e (read_header-Kept line s)))
      | inr (inr (x, e)) ↦ rw (e, read_head) fails
    ]
    read_head-keeps (c ∷ rest) line s p = elim (Bool-cases (c == 10)) [
      | inr b ↦ rw (b, read_head) (read_head-keeps rest (line ++ c ∷ []) s p)
      | inl b ↦ elim (Line-cases (read_header add (line ++ c ∷ []) s)) [
        | inl e ↦ rw (b, e, read_head) (holds p)
        | inr (inl (s', e)) ↦
            rw (b, e, read_head)
              (read_head-keeps rest [] s' (going→ _ s' e (read_header-Kept (line ++ c ∷ []) s)))
        | inr (inr (x, e)) ↦ rw (b, e, read_head) fails
      ]
    ]

add_header-bound :
    (header : Option (Text × Text)) (s : Headers)
    → Holds (λ (h : Headers). length h ≤ 64) (add_header header s)
unfolding add_header
add_header-bound none s = elim (Bool-cases (ltb 64 (length s))) [
  | inl e ↦ rw e fails
  | inr e ↦ rw e (holds (ground arith))
]
add_header-bound (some (key, value)) s =
    let headers = insert_key (to_ascii_lowercase key) value s in
    elim (Bool-cases (ltb 64 (length headers))) [
      | inl e ↦ rw e fails
      | inr e ↦ rw e (holds (ground arith))
    ]

read_exact-length :
    (n : ℕ) (stream : Bytes) → Holds (λ (b : Bytes). length b ≡ n) (read_exact n stream)
unfolding read_exact
read_exact-length n stream = elim (Bool-cases (ltb (length stream) n)) [
  | inl e ↦ rw e fails
  | inr e ↦ rw e (holds (length-take n stream (ground arith)))
]

-- The sizes of a request that is accepted.
pub record Sized (r : Request) : Type 0 where
  pub body : length r.body ≤ max_body
  pub declared : content_length r.headers ≡ ok (length r.body)
  pub headers : length r.headers ≤ 64

read_body-length :
    (n : ℕ) (stream : Bytes)
    → Holds (λ (b : Bytes). (length b ≡ n) × (n ≤ max_body)) (read_body n stream)
unfolding read_body
read_body-length n stream = elim (Bool-cases (ltb max_body n)) [
  | inl e ↦ rw (e, read_body) fails
  | inr e ↦
      rw (e, read_body)
        (Holds-map (read_exact n stream) (read_exact-length n stream) λ b h. (h, ground arith))
]

read_request-Holds : (stream : Bytes) → Holds Sized (read_request stream)
unfolding read_request
read_request-Holds stream = Holds-then (request_line (split_line stream).0) _ λ line.
    Holds-bind (read_head add_header [] [] (split_line stream).1) _
      (read_head-keeps (λ (h : Headers). length h ≤ 64) add_header add_header-bound
        (split_line stream).1 [] [] (omega arith))
      λ head h. Holds-bind (content_length head.0) _ (Holds-self (content_length head.0)) λ n e.
        Holds-bind (read_body n head.1) _ (read_body-length n head.1) λ body b.
          holds (record {
            body = ground (arith, b);
            declared = e ∙ ap Result.ok (sym b.0);
            headers = h;
          })

-- A request that is read has at most 64 headers, its body is as long as its content-length says (or
-- empty without one), and no longer than the limit of 1 MiB.
pub read_request-Sized : (stream : Bytes) (r : Request) → read_request stream ≡ ok r → Sized r
read_request-Sized stream r e = Holds→ (read_request stream) r e (read_request-Holds stream)
