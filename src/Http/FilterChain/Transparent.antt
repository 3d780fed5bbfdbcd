-- ===== src/Http/FilterChain/Transparent.antt =====
-- Filters that let everything through, one after the other.
use meliproxy.Http.FilterChain.Order.{AreApart, in-apart}
use meliproxy.Http.FilterChain.Spares.{is_in, set_active-other, set_active-same}
use meliproxy.Http.FilterChain.{
  ActiveFilter, ActiveStream, Call, DataStatus, Effect, Filter, HeadersStatus, Loops, Provided,
  TrailersStatus, apply_effect, body, buffered, common_handle_after_data_callback,
  common_handle_after_headers_callback, common_handle_after_trailers_callback, continue_data,
  continue_headers, continue_trailers, decode_data_from, decode_headers_after, decode_headers_from,
  decode_trailers_from, dispatch_added_data, headers, is_empty, is_some, logged, loops, or_empty,
  provided, set_active, trailers, leave_buffered_data,
}
use meliproxy.Shared.{
  if◌then◌else◌, ◌≡◌, ◌∷◌, Bool, none, ℕ, true, false, [], List, Bytes, fun_ext, refl, arith, ◌==◌,
  ◌||◌, ap, ◌∙◌, ==_iff, subst, not, ==-true, ◌&&◌, some, sym, length, ltb,
}

abbrev pub IsQuiet : Effect → Type 0
IsQuiet e = (e.adds ≡ none) × (e.replies ≡ false)

-- A filter that continues after each call, leaves the data as it is, and does nothing else.
pub record IsTransparent (f : Filter) : Type 0 where
  pub headers_status : (cs : List Call) → (f.on_headers cs).0 ≡ continue_headers
  pub headers_effect : (cs : List Call) → IsQuiet (f.on_headers cs).1
  pub data_status : (cs : List Call) → (f.on_data cs).0 ≡ continue_data
  pub data_left :
      (bytes : Bytes) (e : Bool) (cs ds : List Call)
      → cs ≡ body bytes e ∷ ds
      → (f.on_data cs).1 ≡ bytes
  pub data_effect : (cs : List Call) → IsQuiet (f.on_data cs).2
  pub trailers_status : (cs : List Call) → (f.on_trailers cs).0 ≡ continue_trailers
  pub trailers_effect : (cs : List Call) → IsQuiet (f.on_trailers cs).1

abbrev pub AreTransparent : (ℕ → Filter) → List ℕ → Type 0
AreTransparent fs [] = Unit
AreTransparent fs (i ∷ is) = IsTransparent (fs i) × AreTransparent fs is

or_false : (b : Bool) → (b || false) ≡ b
or_false true = refl
or_false false = refl

pub apply_effect-quiet : (e : Effect) (s : ActiveStream) → IsQuiet e → apply_effect e s ≡ s
unfolding apply_effect
apply_effect-quiet e s (a, r) = rw (a, r, or_false s.local_complete)

dispatch_added_data-quiet :
    (r : Loops) (e : Effect) (s : ActiveStream)
    → IsQuiet e
    → dispatch_added_data r e.adds (record s { local_complete = s.local_complete || e.replies }) ≡ s
unfolding dispatch_added_data
dispatch_added_data-quiet r e s (a, k) = rw (a, k, or_false s.local_complete)

-- The same change to each of the filters.
abbrev pub at_all : List ℕ → (ActiveFilter → ActiveFilter) → ActiveStream → ActiveStream
at_all is g s = record s { active = λ j. if is_in j is then g (s.active j) else s.active j }

at_all-cons :
    (i : ℕ) (is : List ℕ) (g : ActiveFilter → ActiveFilter) (s : ActiveStream)
    → is_in i is ≡ false
    → at_all is g (set_active i (g (s.active i)) s) ≡ at_all (i ∷ is) g s
at_all-cons i is g s n = ap (λ a. record s { active = a }) (fun_ext (λ j. by_same j (i == j) refl))
  where
    by_same :
        (j : ℕ) (t : Bool)
        → (i == j) ≡ t
        → (at_all is g (set_active i (g (s.active i)) s)).active j ≡ (at_all (i ∷ is) g s).active j
    by_same j true e =
        subst
          (λ m.
            (at_all is g (set_active i (g (s.active i)) s)).active m
            ≡ (at_all (i ∷ is) g s).active m)
          ((==_iff i j).0 e) at_first
      where
        at_first :
            (at_all is g (set_active i (g (s.active i)) s)).active i
            ≡ (at_all (i ∷ is) g s).active i
        at_first = rw (n, ==-true i i refl)
    by_same j false e = ground arith

abbrev pub called : Call → ActiveFilter → ActiveFilter
called c f = record f { calls = c ∷ f.calls }

-- A filter that gets the headers and lets them through.
abbrev pub begun : Bool → ActiveFilter → ActiveFilter
begun e f = record f { headers_continued = true; calls = headers e ∷ f.calls }

abbrev pub AreNotStopped : List ℕ → ActiveStream → Type 0
AreNotStopped is s = (j : ℕ) → is_in j is ≡ true → (s.active j).stopped ≡ false

-- After `decodeHeaders` of a filter before, which has let the headers through.
decode_headers_after-continue :
    (r : Loops) (is_last : Bool) (i : ℕ) (status : HeadersStatus) (e found : Bool)
    (s : ActiveStream)
    → status ≡ continue_headers
    → ((e && is_some s.buffered_request_data) && not found) ≡ false
    → decode_headers_after r is_last i status e found s
      ≡ r.decode_headers e found (set_active i (record (s.active i) { headers_continued = true }) s)
unfolding decode_headers_after common_handle_after_headers_callback
decode_headers_after-continue r is_last i status e found s c n = rw (c, n, or_false found)

common_handle_after_data_callback-continue :
    (r : Loops) (i : ℕ) (status : DataStatus) (d : Provided) (e : Bool) (s : ActiveStream)
    → status ≡ continue_data
    → (s.active i).stopped ≡ false
    → common_handle_after_data_callback r i status d e s ≡ r.decode_data d e s
unfolding common_handle_after_data_callback
common_handle_after_data_callback-continue r i status d e s c k = rw (c, k)

common_handle_after_trailers_callback-continue :
    (r : Loops) (i : ℕ) (status : TrailersStatus) (s : ActiveStream)
    → status ≡ continue_trailers
    → (s.active i).stopped ≡ false
    → common_handle_after_trailers_callback r i status s ≡ r.decode_trailers s
unfolding common_handle_after_trailers_callback
common_handle_after_trailers_callback-continue r i status s c k = rw (c, k)

-- What a call finds in the log of the filter.
pub logged-calls :
    (i : ℕ) (c : Call) (s : ActiveStream) → ((logged i c s).active i).calls ≡ c ∷ (s.active i).calls
logged-calls i c s = ap (λ (f : ActiveFilter). f.calls) (set_active-same i _ s)

pub set_active-twice :
    (i : ℕ) (f g : ActiveFilter) (s : ActiveStream)
    → set_active i g (set_active i f s) ≡ set_active i g s
set_active-twice i f g s = ap (λ a. record s { active = a }) (fun_ext by_each)
  where
    by_each : (j : ℕ) → (set_active i g (set_active i f s)).active j ≡ (set_active i g s).active j
    by_each j = ground arith

logged-AreNotStopped :
    (i : ℕ) (is : List ℕ) (c : Call) (s : ActiveStream)
    → is_in i is ≡ false
    → AreNotStopped (i ∷ is) s
    → AreNotStopped is (logged i c s)
logged-AreNotStopped i is c s m n = λ j k.
    ap (λ (f : ActiveFilter). f.stopped) (set_active-other i j _ s (in-apart is i j m k))
    ∙ n j (ground arith)

logged-stopped :
    (i : ℕ) (is : List ℕ) (c : Call) (s : ActiveStream)
    → AreNotStopped (i ∷ is) s
    → ((logged i c s).active i).stopped ≡ false
logged-stopped i is c s n =
    ap (λ (f : ActiveFilter). f.stopped) (set_active-same i _ s) ∙ n i (ground arith)

-- The headers go through to the last filter, as long as nothing was added to a request that has no body.
pub decode_headers-all :
    (fs : ℕ → Filter) (is : List ℕ) (e found : Bool) (s : ActiveStream)
    → AreApart is
    → AreTransparent fs is
    → ((e && is_some s.buffered_request_data) && not found) ≡ false
    → (loops fs is).decode_headers e found s ≡ (at_all is (begun (e && not found)) s, true)
unfolding loops decode_headers_from
decode_headers-all fs [] e found s d t n = refl
decode_headers-all fs (i ∷ is) e found s (m, d) (t, ts) n =
    let call : Call = headers (e && not found) in
    let s₁ : ActiveStream = logged i call s in
    let answer : HeadersStatus × Effect = (fs i).on_headers (s₁.active i).calls in
    let quiet : apply_effect answer.1 s₁ ≡ s₁ =
      apply_effect-quiet answer.1 s₁ (t.headers_effect (s₁.active i).calls) in
    ap (decode_headers_after (loops fs is) (is_empty is) i answer.0 e found) quiet
    ∙ (decode_headers_after-continue (loops fs is) (is_empty is) i answer.0 e found s₁
          (t.headers_status (s₁.active i).calls) n
        ∙ (ap ((loops fs is).decode_headers e found) (
              ap (λ (x : ActiveFilter). set_active i (record x { headers_continued = true }) s₁)
                (set_active-same i _ s)
              ∙ set_active-twice i _ _ s)
            ∙ (decode_headers-all fs is e found
                  (set_active i (begun (e && not found) (s.active i)) s) d ts n
                ∙ ap (λ u. (u, true)) (at_all-cons i is (begun (e && not found)) s m))))

-- The data that is provided goes through to the last filter.
pub decode_data-all :
    (fs : ℕ → Filter) (is : List ℕ) (bytes : Bytes) (e : Bool) (s : ActiveStream)
    → AreApart is
    → AreTransparent fs is
    → AreNotStopped is s
    → (loops fs is).decode_data (provided bytes) e s ≡ at_all is (called (body bytes e)) s
unfolding loops decode_data_from
decode_data-all fs [] bytes e s d t n = refl
decode_data-all fs (i ∷ is) bytes e s (m, d) (t, ts) n =
    let call : Call = body bytes e in
    let s₁ : ActiveStream = logged i call s in
    let cs : List Call = (s₁.active i).calls in
    let answer : DataStatus × Bytes × Effect = (fs i).on_data cs in
    let quiet : apply_effect answer.2 s₁ ≡ s₁ = apply_effect-quiet answer.2 s₁ (t.data_effect cs) in
    ap (common_handle_after_data_callback (loops fs is) i answer.0 (provided answer.1) e) quiet
    ∙ (common_handle_after_data_callback-continue (loops fs is) i answer.0 (provided answer.1) e s₁
          (t.data_status cs) (logged-stopped i is call s n)
        ∙ (ap (λ b. (loops fs is).decode_data (provided b) e s₁)
              (t.data_left bytes e cs (s.active i).calls (logged-calls i call s))
            ∙ (decode_data-all fs is bytes e s₁ d ts (logged-AreNotStopped i is call s m n)
                ∙ at_all-cons i is (called call) s m)))

leave_buffered_data-same :
    (bytes : Bytes) (s : ActiveStream)
    → s.buffered_request_data ≡ some bytes
    → leave_buffered_data bytes s ≡ s
unfolding leave_buffered_data
leave_buffered_data-same bytes s b =
    let before : ℕ = length (or_empty s.buffered_request_data) in
    let s₁ : ActiveStream = record s { buffered_request_data = some bytes } in
    let same : s₁ ≡ s = ap (λ o. record s { buffered_request_data = o }) (sym b) in
    let equal : before ≡ length bytes = ap (λ o. length (or_empty o)) b in
    let no_more : ltb before (length bytes) ≡ false = ground arith in
    let no_less : ltb (length bytes) before ≡ false = ground arith in
    let left : leave_buffered_data bytes s ≡ s₁ = rw (no_more, no_less) in left ∙ same

-- The buffered data goes through to the last filter, and stays as it is.
pub decode_data-all_buffered :
    (fs : ℕ → Filter) (is : List ℕ) (bytes : Bytes) (e : Bool) (s : ActiveStream)
    → AreApart is
    → AreTransparent fs is
    → AreNotStopped is s
    → s.buffered_request_data ≡ some bytes
    → (loops fs is).decode_data buffered e s ≡ at_all is (called (body bytes e)) s
unfolding loops decode_data_from
decode_data-all_buffered fs [] bytes e s d t n b = refl
decode_data-all_buffered fs (i ∷ is) bytes e s (m, d) (t, ts) n b =
    let call : Call = body (or_empty s.buffered_request_data) e in
    let s₁ : ActiveStream = logged i call s in
    let cs : List Call = (s₁.active i).calls in
    let answer : DataStatus × Bytes × Effect = (fs i).on_data cs in
    let s₂ : ActiveStream = leave_buffered_data answer.1 s₁ in
    let same_call : call ≡ body bytes e = ap (λ o. body (or_empty o) e) b in
    let left : answer.1 ≡ bytes =
      t.data_left (or_empty s.buffered_request_data) e cs (s.active i).calls (logged-calls i call s)
      ∙ ap or_empty b in
    let same : s₂ ≡ s₁ =
      ap (λ x. leave_buffered_data x s₁) left ∙ leave_buffered_data-same bytes s₁ b in
    let quiet : apply_effect answer.2 s₂ ≡ s₁ =
      apply_effect-quiet answer.2 s₂ (t.data_effect cs) ∙ same in
    ap (common_handle_after_data_callback (loops fs is) i answer.0 buffered e) quiet
    ∙ (common_handle_after_data_callback-continue (loops fs is) i answer.0 buffered e s₁
          (t.data_status cs) (logged-stopped i is call s n)
        ∙ (decode_data-all_buffered fs is bytes e s₁ d ts (logged-AreNotStopped i is call s m n) b
            ∙ (ap (λ c. at_all is (called (body bytes e)) (logged i c s)) same_call
                ∙ at_all-cons i is (called (body bytes e)) s m)))

pub decode_trailers-all :
    (fs : ℕ → Filter) (is : List ℕ) (s : ActiveStream)
    → AreApart is
    → AreTransparent fs is
    → AreNotStopped is s
    → (loops fs is).decode_trailers s ≡ at_all is (called trailers) s
unfolding loops decode_trailers_from
decode_trailers-all fs [] s d t n = refl
decode_trailers-all fs (i ∷ is) s (m, d) (t, ts) n =
    let s₁ : ActiveStream = logged i trailers s in
    let cs : List Call = (s₁.active i).calls in
    let answer : TrailersStatus × Effect = (fs i).on_trailers cs in
    let s₂ : ActiveStream = record s₁ { local_complete = s₁.local_complete || answer.1.replies } in
    let quiet : dispatch_added_data (loops fs is) answer.1.adds s₂ ≡ s₁ =
      dispatch_added_data-quiet (loops fs is) answer.1 s₁ (t.trailers_effect cs) in
    ap (common_handle_after_trailers_callback (loops fs is) i answer.0) quiet
    ∙ (common_handle_after_trailers_callback-continue (loops fs is) i answer.0 s₁
          (t.trailers_status cs) (logged-stopped i is trailers s n)
        ∙ (decode_trailers-all fs is s₁ d ts (logged-AreNotStopped i is trailers s m n)
            ∙ at_all-cons i is (called trailers) s m))
