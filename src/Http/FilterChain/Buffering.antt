-- ===== src/Http/FilterChain/Buffering.antt =====
-- A filter before others that keeps the request back.
use meliproxy.Http.FilterChain.Transparent.{AreTransparent, at_all, called, begun}
use meliproxy.Http.FilterChain.Steps.{idle_calls}
use meliproxy.Http.FilterChain.Order.{
  AreIdle, AddsNothing, AreApart, AreIdle-spared, set_active-AreIdle,
}
use meliproxy.Http.FilterChain.Spares.{is_in, set_active-same}
use meliproxy.Http.FilterChain.{
  ActiveFilter, ActiveStream, Call, Filter, Loops, body, common_continue, common_handle_buffer_data,
  decode_data_after, decode_data_from, decode_headers_from, headers, logged, loops, or_empty,
  provided, set_active, decode_data, decode_headers,
}
use meliproxy.Http.FilterChain.BufferFilter.{buffer_filter}
use meliproxy.Shared.{
  length, leb, ◌||◌, ◌==◌, length-append, ◌≤◌, ◌+◌, if◌then◌else◌, false, List, true, ◌∷◌, ◌≡◌, ℕ,
  Option, Bool, Bytes, some, ◌∙◌, ap, subst, refl, if_cases, [], arith, ◌++◌, none, sym, append-nil,
  append_assoc,
}
use meliproxy.Http.FilterChain.Holding.{
  has_room, check_high_watermark-roomy, IsKept, common_continue-all, buffer_filter-headers,
  buffer_filter-data, buffer_filter-end,
}

-- What is kept stands when the state of the first filter changes no more than its calls.
set_active-IsKept :
    (i : ℕ) (is : List ℕ) (limit : ℕ) (held : Option Bytes) (f : ActiveFilter) (s : ActiveStream)
    → is_in i is ≡ false
    → f.headers_continued ≡ false
    → f.stopped ≡ true
    → AreIdle is s
    → s.buffered_request_data ≡ held
    → s.buffer_limit ≡ limit
    → s.local_complete ≡ false
    → s.request_trailers ≡ false
    → IsKept i is limit held (set_active i f s)
set_active-IsKept i is limit held f s m c k a b r l n = record {
  not_continued = ap (λ (g : ActiveFilter). g.headers_continued) (set_active-same i f s) ∙ c;
  stopped = ap (λ (g : ActiveFilter). g.stopped) (set_active-same i f s) ∙ k;
  idle = set_active-AreIdle is i f s m a;
  kept = b;
  limited = r;
  is_open = l;
  no_trailers = n;
}

-- The data of a request, chunk by chunk.
unfoldable pub fed : (ℕ → Filter) → List ℕ → List Bytes → ActiveStream → ActiveStream
fed fs is [] s = s
fed fs is (bytes ∷ more) s = fed fs is more (decode_data fs is bytes false s)

unfoldable pub joined : List Bytes → Bytes
joined [] = []
joined (bytes ∷ more) = bytes ++ joined more

-- What is held after chunks.
abbrev pub held_after : Option Bytes → List Bytes → Option Bytes
held_after held [] = held
held_after held (bytes ∷ more) = held_after (some (or_empty held ++ bytes)) more

held_after-joined :
    (held : Option Bytes) (chunks : List Bytes)
    → or_empty (held_after held chunks) ≡ or_empty held ++ joined chunks
unfolding joined
held_after-joined held [] = sym (append-nil (or_empty held))
held_after-joined held (bytes ∷ more) =
    held_after-joined (some (or_empty held ++ bytes)) more
    ∙ append_assoc (or_empty held) bytes (joined more)

decode_headers-IsKept :
    (fs : ℕ → Filter) (i j : ℕ) (js : List ℕ) (s : ActiveStream)
    → fs i ≡ buffer_filter
    → is_in i (j ∷ js) ≡ false
    → AreIdle (i ∷ j ∷ js) s
    → s.buffered_request_data ≡ none
    → s.local_complete ≡ false
    → s.request_trailers ≡ false
    → IsKept i (j ∷ js) s.buffer_limit none (decode_headers fs (i ∷ j ∷ js) false s)
unfolding decode_headers loops
decode_headers-IsKept fs i j js s b m (a, idle) n l k =
    let r : Loops = loops fs (j ∷ js) in
    let s₁ : ActiveStream = record s { remote_complete = false } in
    let s₂ : ActiveStream = logged i (headers false) s₁ in
    let same : (decode_headers_from (fs i) r false i false false s₁).0
        ≡ set_active i (record (s₂.active i) { stopped = true }) s₂ =
      ap (λ f. (decode_headers_from f r false i false false s₁).0) b
      ∙ buffer_filter-headers r i s₁ in
    subst (IsKept i (j ∷ js) s.buffer_limit none) (sym same) (
      set_active-IsKept i (j ∷ js) s.buffer_limit none _ s₂ m
        (ap (λ (f : ActiveFilter). f.headers_continued) (set_active-same i _ s₁) ∙ a.1) refl
        (set_active-AreIdle (j ∷ js) i _ s₁ m (AreIdle-spared (j ∷ js) s s₁ (λ p q. refl) idle)) n
        refl l k)

-- What has room in the stream when what is held has.
room-kept :
    (s : ActiveStream) (limit : ℕ) (held : Option Bytes) (bytes : Bytes)
    → s.buffer_limit ≡ limit
    → s.buffered_request_data ≡ held
    → has_room limit (length (or_empty held ++ bytes)) ≡ true
    → has_room s.buffer_limit (length (or_empty s.buffered_request_data ++ bytes)) ≡ true
room-kept s limit held bytes l k p = rw (l, k, p)

room-smaller : (limit n m : ℕ) → n ≤ m → has_room limit m ≡ true → has_room limit n ≡ true
room-smaller limit n m l p = ground arith

append-longer : (bytes more : Bytes) → length bytes ≤ length (bytes ++ more)
append-longer bytes more =
    let e : length (bytes ++ more) ≡ length bytes + length more = length-append bytes more in
    omega arith

held_after-length :
    (held : Option Bytes) (chunks : List Bytes)
    → length (or_empty held) ≤ length (or_empty (held_after held chunks))
held_after-length held chunks =
    let e : length (or_empty (held_after held chunks))
        ≡ length (or_empty held) + length (joined chunks) =
      ap length (held_after-joined held chunks) ∙ length-append (or_empty held) (joined chunks) in
    omega arith

decode_data-IsKept :
    (fs : ℕ → Filter) (i : ℕ) (is : List ℕ) (limit : ℕ) (held : Option Bytes) (bytes : Bytes)
    (s : ActiveStream)
    → fs i ≡ buffer_filter
    → is_in i is ≡ false
    → IsKept i is limit held s
    → has_room limit (length (or_empty held ++ bytes)) ≡ true
    → IsKept i is limit (some (or_empty held ++ bytes)) (decode_data fs (i ∷ is) bytes false s)
unfolding decode_data decode_data_after loops common_handle_buffer_data
decode_data-IsKept fs i is limit held bytes s b m k p =
    let r : Loops = loops fs is in
    let s₁ : ActiveStream = record s { remote_complete = false } in
    let s₂ : ActiveStream = logged i (body bytes false) s₁ in
    let s₃ : ActiveStream = record s₂ {
      buffered_request_data = some (or_empty s.buffered_request_data ++ bytes);
      decoder_filters_streaming = false;
    } in
    let f : ActiveFilter = record (s₂.active i) { stopped = true } in
    let answered : decode_data_from (fs i) r i (provided bytes) false s₁ ≡ set_active i f s₃ =
      ap (λ g. decode_data_from g r i (provided bytes) false s₁) b
      ∙ (buffer_filter-data r i bytes s₁
          ∙ check_high_watermark-roomy (set_active i f s₃)
              (room-kept s limit held bytes k.limited k.kept p)) in
    let same : (if s.local_complete
          then s₁
          else decode_data_from (fs i) r i (provided bytes) false s₁)
        ≡ set_active i f s₃ =
      if_cases (λ (u : ActiveStream). u ≡ set_active i f s₃) s.local_complete _ _
        (λ c. absurd (apart c k.is_open)) (λ c. answered) in
    subst (IsKept i is limit (some (or_empty held ++ bytes))) (sym same) (
      set_active-IsKept i is limit (some (or_empty held ++ bytes)) f s₃ m
        (ap (λ (g : ActiveFilter). g.headers_continued) (set_active-same i _ s₁) ∙ k.not_continued)
        refl
        (AreIdle-spared is s₂ s₃ (λ p q. refl)
          (set_active-AreIdle is i _ s₁ m (AreIdle-spared is s s₁ (λ p q. refl) k.idle)))
        (ap (λ o. some (or_empty o ++ bytes)) k.kept) k.limited k.is_open k.no_trailers)
  where
    apart : {c : Bool} → c ≡ true → c ≡ false → ⊥
    apart p q = ground arith

fed-IsKept :
    (fs : ℕ → Filter) (i : ℕ) (is : List ℕ) (limit : ℕ) (held : Option Bytes) (chunks : List Bytes)
    (s : ActiveStream)
    → fs i ≡ buffer_filter
    → is_in i is ≡ false
    → IsKept i is limit held s
    → has_room limit (length (or_empty (held_after held chunks))) ≡ true
    → IsKept i is limit (held_after held chunks) (fed fs (i ∷ is) chunks s)
unfolding fed
fed-IsKept fs i is limit held [] s b m k p = k
fed-IsKept fs i is limit held (bytes ∷ more) s b m k p =
    fed-IsKept fs i is limit (some (or_empty held ++ bytes)) more
      (decode_data fs (i ∷ is) bytes false s) b m
      (decode_data-IsKept fs i is limit held bytes s b m k
        (room-smaller limit _ _ (held_after-length (some (or_empty held ++ bytes)) more) p))
      p

-- The state in which the end of the data is passed on.
abbrev ended : ℕ → Bytes → ActiveStream → ActiveStream
ended i last s =
    let s₂ = logged i (body last true) (record s { remote_complete = true }) in
    record s₂ { buffered_request_data = some (or_empty s.buffered_request_data ++ last) }

ended-IsKept :
    (i : ℕ) (is : List ℕ) (limit : ℕ) (held : Option Bytes) (last : Bytes) (s : ActiveStream)
    → is_in i is ≡ false
    → IsKept i is limit held s
    → IsKept i is limit (some (or_empty held ++ last)) (ended i last s)
ended-IsKept i is limit held last s m k =
    let s₁ : ActiveStream = record s {
      remote_complete = true;
      buffered_request_data = some (or_empty s.buffered_request_data ++ last);
    } in
    set_active-IsKept i is limit (some (or_empty held ++ last)) _ s₁ m k.not_continued k.stopped
      (AreIdle-spared is s s₁ (λ p q. refl) k.idle) (ap (λ o. some (or_empty o ++ last)) k.kept)
      k.limited k.is_open k.no_trailers

decode_data-end :
    (fs : ℕ → Filter) (i : ℕ) (is : List ℕ) (limit : ℕ) (held : Option Bytes) (last : Bytes)
    (s : ActiveStream)
    → fs i ≡ buffer_filter
    → IsKept i is limit held s
    → has_room limit (length (or_empty held ++ last)) ≡ true
    → decode_data fs (i ∷ is) last true s ≡ common_continue (loops fs is) i (ended i last s)
unfolding decode_data decode_data_after loops common_handle_buffer_data
decode_data-end fs i is limit held last s b k p =
    let r : Loops = loops fs is in
    let s₁ : ActiveStream = record s { remote_complete = true } in
    if_cases (λ (u : ActiveStream). u ≡ common_continue r i (ended i last s)) s.local_complete _ _
      (λ c. absurd (apart c k.is_open))
      (λ c.
        ap (λ g. decode_data_from g r i (provided last) true s₁) b
        ∙ (buffer_filter-end r i last s₁ k.stopped
            ∙ ap (common_continue r i) (
                check_high_watermark-roomy (ended i last s)
                  (room-kept s limit held last k.limited k.kept p))))
  where
    apart : {c : Bool} → c ≡ true → c ≡ false → ⊥
    apart p q = ground arith

at_all-calls :
    (is : List ℕ) (c : Call) (e : Bool) (s : ActiveStream) (m : ℕ)
    → is_in m is ≡ true
    → ((at_all is (called c) (at_all is (begun e) s)).active m).calls
      ≡ c ∷ headers e ∷ (s.active m).calls
at_all-calls is c e s m k = rw k

-- With the buffer filter first and at least one filter behind it, these letting everything through, all of them
-- distinct and with no call before, and an open stream with no buffered data and no trailers, whose limit of
-- the buffer is 0 or no less than the length of all the data: when a request has
-- given its headers and any chunks of data without the end, the filters behind have had no call; and once a last
-- chunk with the end of the stream has come, each of them has had the headers and then, in one call, all of the
-- data with the end of the stream.
pub decode_data-buffered :
    (fs : ℕ → Filter) (i j : ℕ) (js : List ℕ) (m : ℕ) (chunks : List Bytes) (last : Bytes)
    (s : ActiveStream)
    → fs i ≡ buffer_filter
    → AreTransparent fs (j ∷ js)
    → AreApart (i ∷ j ∷ js)
    → AreIdle (i ∷ j ∷ js) s
    → s.buffered_request_data ≡ none
    → s.local_complete ≡ false
    → s.request_trailers ≡ false
    → is_in m (j ∷ js) ≡ true
    → (s.buffer_limit == 0 || leb (length (joined chunks ++ last)) s.buffer_limit) ≡ true
    → (((fed fs (i ∷ j ∷ js) chunks (decode_headers fs (i ∷ j ∷ js) false s)).active m).calls ≡ [])
      × (((decode_data fs
              (i ∷ j ∷ js)
              last
              true
              (fed fs (i ∷ j ∷ js) chunks (decode_headers fs (i ∷ j ∷ js) false s))).active
            m).calls
          ≡ body (joined chunks ++ last) true ∷ headers false ∷ [])
decode_data-buffered fs i j js m chunks last s b t (n, d) a h l k e room =
    let is : List ℕ = j ∷ js in
    let u : ActiveStream = fed fs (i ∷ is) chunks (decode_headers fs (i ∷ is) false s) in
    let held : Option Bytes = held_after none chunks in
    let limit : ℕ = s.buffer_limit in
    let p : has_room limit (length (or_empty held ++ last)) ≡ true =
      ap (λ x. has_room limit (length (x ++ last))) (held_after-joined none chunks) ∙ room in
    let kept : IsKept i is limit held u =
      fed-IsKept fs i is limit none chunks (decode_headers fs (i ∷ is) false s) b n
        (decode_headers-IsKept fs i j js s b n a h l k)
        (room-smaller limit _ _ (append-longer (or_empty held) last) p) in
    let v : ActiveStream = ended i last u in
    let kept₁ : IsKept i is limit (some (or_empty held ++ last)) v =
      ended-IsKept i is limit held last u n kept in
    let all : Bytes = or_empty held ++ last in
    let f : ActiveFilter = record (v.active i) { stopped = false; headers_continued = true } in
    let passed : decode_data fs (i ∷ is) last true u
        ≡ at_all is (called (body all true)) (at_all is (begun false) (set_active i f v)) =
      decode_data-end fs i is limit held last u b kept p
      ∙ common_continue-all fs i is limit all v n d t kept₁ refl in
    (
      idle_calls is u m kept.idle e,
      ap (λ (w : ActiveStream). (w.active m).calls) passed
          ∙ (at_all-calls is (body all true) false (set_active i f v) m e
              ∙ (ap (λ cs. body all true ∷ headers false ∷ cs)
                    (idle_calls is (set_active i f v) m (set_active-AreIdle is i f v n kept₁.idle)
                      e)
                  ∙ ap (λ x. body (x ++ last) true ∷ headers false ∷ [])
                      (held_after-joined none chunks))),
    )

pub buffer_filter-AddsNothing : AddsNothing buffer_filter
unfolding buffer_filter
buffer_filter-AddsNothing = λ cs. refl
