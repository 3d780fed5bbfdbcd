-- ===== src/Http/FilterChain/Passing.antt =====
-- A chain of filters that let everything through: each of them gets what the codec delivers.
use meliproxy.Http.FilterChain.Holding.{idle_not_stopped}
use meliproxy.Http.FilterChain.Transparent.{
  AreTransparent, at_all, called, begun, AreNotStopped, decode_headers-all, decode_data-all,
  decode_trailers-all,
}
use meliproxy.Http.FilterChain.Steps.{idle_calls}
use meliproxy.Http.FilterChain.Order.{AreIdle, AreApart}
use meliproxy.Http.FilterChain.Spares.{is_in}
use meliproxy.Http.FilterChain.{
  ActiveFilter, ActiveStream, Call, Filter, body, decode_data, decode_data_after, decode_headers,
  decode_trailers, decode_trailers_after, headers, is_some, loops, provided, trailers,
}
use mathlib.Core.List.{reverse_aux}
use meliproxy.Shared.{
  ◌≡◌, ◌∙◌, sym, refl, ◌∷◌, true, ℕ, if_cases, ap, [], ◌&&◌, List, subst, none, Bool, false, arith,
  reverse,
}

pub delivers : (ℕ → Filter) → List ℕ → Call → ActiveStream → ActiveStream
delivers fs is (headers e) s = decode_headers fs is e s
delivers fs is (body bytes e) s = decode_data fs is bytes e s
delivers fs is trailers s = decode_trailers fs is s

pub delivers_all : (ℕ → Filter) → List ℕ → List Call → ActiveStream → ActiveStream
unfolding delivers
delivers_all fs is [] s = s
delivers_all fs is (c ∷ cs) s = delivers_all fs is cs (delivers fs is c s)

-- No headers come after the first.
abbrev pub HasNoHeaders : List Call → Type 0
HasNoHeaders [] = Unit
HasNoHeaders (headers e ∷ cs) = ⊥
HasNoHeaders (body bytes e ∷ cs) = HasNoHeaders cs
HasNoHeaders (trailers ∷ cs) = HasNoHeaders cs

-- The calls of a filter `m`, and what the filters have not done.
record IsPassing (is : List ℕ) (m : ℕ) (calls : List Call) (s : ActiveStream) : Type 0 where
  pub had : (s.active m).calls ≡ calls
  pub not_stopped : AreNotStopped is s
  pub is_open : s.local_complete ≡ false

at_all-IsPassing :
    (is : List ℕ) (m : ℕ) (cs : List Call) (g : ActiveFilter → ActiveFilter) (c : Call)
    (s : ActiveStream)
    → is_in m is ≡ true
    → ((f : ActiveFilter) → (g f).calls ≡ c ∷ f.calls)
    → ((f : ActiveFilter) → (g f).stopped ≡ f.stopped)
    → IsPassing is m cs s
    → IsPassing is m (c ∷ cs) (at_all is g s)
at_all-IsPassing is m cs g c s k p q a = record {
  had =
      if_cases (λ (f : ActiveFilter). f.calls ≡ c ∷ cs) (is_in m is) _ _
        (λ l. p (s.active m) ∙ ap (λ x. c ∷ x) a.had) (λ l. absurd (ground arith));
  not_stopped = λ j l.
      if_cases (λ (f : ActiveFilter). f.stopped ≡ false) (is_in j is) _ _
        (λ x. q (s.active j) ∙ a.not_stopped j l) (λ x. a.not_stopped j l);
  is_open = a.is_open;
}

and_true : (b : Bool) → (b && true) ≡ b
and_true true = refl
and_true false = refl

and_false : (b : Bool) → ((b && false) && true) ≡ false
and_false true = refl
and_false false = refl

decode_headers-IsPassing :
    (fs : ℕ → Filter) (is : List ℕ) (m : ℕ) (cs : List Call) (e : Bool) (s : ActiveStream)
    → AreApart is
    → AreTransparent fs is
    → is_in m is ≡ true
    → s.buffered_request_data ≡ none
    → IsPassing is m cs s
    → IsPassing is m (headers e ∷ cs) (decode_headers fs is e s)
unfolding decode_headers
decode_headers-IsPassing fs is m cs e s d t k b a =
    let s₁ : ActiveStream = record s { remote_complete = e } in
    let g : ActiveFilter → ActiveFilter = begun (e && true) in
    let same : ((loops fs is).decode_headers e false s₁).0 ≡ at_all is g s₁ =
      ap (λ (u : ActiveStream × Bool). u.0)
        (decode_headers-all fs is e false s₁ d t
          (ap (λ o. (e && is_some o) && true) b ∙ and_false e)) in
    subst (IsPassing is m (headers e ∷ cs)) (sym same) (
      at_all-IsPassing is m cs g (headers e) s₁ k (λ f. ap (λ x. headers x ∷ f.calls) (and_true e))
        (λ f. refl) record { had = a.had; not_stopped = a.not_stopped; is_open = a.is_open })

delivers-IsPassing :
    (fs : ℕ → Filter) (is : List ℕ) (m : ℕ) (cs : List Call) (c : Call) (s : ActiveStream)
    → AreApart is
    → AreTransparent fs is
    → is_in m is ≡ true
    → HasNoHeaders (c ∷ [])
    → IsPassing is m cs s
    → IsPassing is m (c ∷ cs) (delivers fs is c s)
unfolding delivers decode_data decode_trailers decode_data_after decode_trailers_after
delivers-IsPassing fs is m cs (headers e) s d t k h a = absurd h
delivers-IsPassing fs is m cs (body bytes e) s d t k h a =
    let s₁ : ActiveStream = record s { remote_complete = e } in
    if_cases (IsPassing is m (body bytes e ∷ cs)) s.local_complete s₁
      ((loops fs is).decode_data (provided bytes) e s₁) (λ l. absurd (apart l a.is_open))
      (λ l.
        subst (IsPassing is m (body bytes e ∷ cs))
          (sym (decode_data-all fs is bytes e s₁ d t a.not_stopped))
          (at_all-IsPassing is m cs (called (body bytes e)) (body bytes e) s₁ k (λ f. refl)
            (λ f. refl) record { had = a.had; not_stopped = a.not_stopped; is_open = a.is_open }))
  where
    apart : {b : Bool} → b ≡ true → b ≡ false → ⊥
    apart p q = ground arith
delivers-IsPassing fs is m cs trailers s d t k h a =
    let s₁ : ActiveStream = record s { request_trailers = true; remote_complete = true } in
    if_cases (IsPassing is m (trailers ∷ cs)) s.local_complete s₁ ((loops fs is).decode_trailers s₁)
      (λ l. absurd (apart l a.is_open))
      (λ l.
        subst (IsPassing is m (trailers ∷ cs))
          (sym (decode_trailers-all fs is s₁ d t a.not_stopped))
          (at_all-IsPassing is m cs (called trailers) trailers s₁ k (λ f. refl) (λ f. refl)
            record { had = a.had; not_stopped = a.not_stopped; is_open = a.is_open }))
  where
    apart : {b : Bool} → b ≡ true → b ≡ false → ⊥
    apart p q = ground arith

delivers_all-IsPassing :
    (fs : ℕ → Filter) (is : List ℕ) (m : ℕ) (before cs : List Call) (s : ActiveStream)
    → AreApart is
    → AreTransparent fs is
    → is_in m is ≡ true
    → HasNoHeaders cs
    → IsPassing is m before s
    → IsPassing is m (reverse_aux cs before) (delivers_all fs is cs s)
unfolding delivers_all
delivers_all-IsPassing fs is m before [] s d t k h a = a
delivers_all-IsPassing fs is m before (headers e ∷ cs) s d t k h a = absurd h
delivers_all-IsPassing fs is m before (body bytes e ∷ cs) s d t k h a =
    delivers_all-IsPassing fs is m (body bytes e ∷ before) cs (delivers fs is (body bytes e) s) d t
      k h (delivers-IsPassing fs is m before (body bytes e) s d t k tt a)
delivers_all-IsPassing fs is m before (trailers ∷ cs) s d t k h a =
    delivers_all-IsPassing fs is m (trailers ∷ before) cs (delivers fs is trailers s) d t k h
      (delivers-IsPassing fs is m before trailers s d t k tt a)

-- With filters that let everything through, all of them distinct and with no call before, an open stream without
-- buffered data, and headers followed by any data and trailers: each filter has had, in this order, just the calls
-- that the codec makes.
pub delivers_all-calls :
    (fs : ℕ → Filter) (is : List ℕ) (m : ℕ) (e : Bool) (cs : List Call) (s : ActiveStream)
    → AreApart is
    → AreTransparent fs is
    → AreIdle is s
    → is_in m is ≡ true
    → HasNoHeaders cs
    → s.buffered_request_data ≡ none
    → s.local_complete ≡ false
    → ((delivers_all fs is (headers e ∷ cs) s).active m).calls ≡ reverse (headers e ∷ cs)
unfolding delivers_all delivers
delivers_all-calls fs is m e cs s d t a k h b l =
    (delivers_all-IsPassing fs is m (headers e ∷ []) cs (decode_headers fs is e s) d t k h (
      decode_headers-IsPassing fs is m [] e s d t k b record {
        had = idle_calls is s m a k;
        not_stopped = idle_not_stopped is s a;
        is_open = l;
      })).had
