-- ===== src/Filters/Cache.antt =====
-- What the cache of filters answers, and when it asks the exchange.
use mathlib.Core.Path.{subst}
use atlas_ai_trading.Filters.{
  Cached, FilterCache, InfoPayload, cache_get, cache_set, get, parsed_answer, store,
}
use atlas_ai_trading.Prelude.{
  Bool, Bool-cases, Option-cases, [], ap, arith, false, inl, inr, ltb, not, refl, some, ℕ, ◌&&◌,
  ◌+◌, ◌<◌, ◌∙◌, ◌∷◌, ◌≡◌, ◌⊎◌,
}
use atlas_ai_trading.Prelude.Text.{Text, text_eq, text_eq_refl, upper}
use atlas_ai_trading.Sizing.{ExchangeFilters}
use atlas_ai_trading.World.{Result, ok, ok-injective, raised}

cache_get-cache_set :
    (key : Text) (c : Cached) (cs : FilterCache) → cache_get key (cache_set key c cs) ≡ some c
unfolding cache_get cache_set
cache_get-cache_set key c [] = rw (text_eq_refl key) refl
cache_get-cache_set key c ((k, d) ∷ cs) = elim (Bool-cases (text_eq k key)) [
  | inl y ↦ rw (y, y) refl
  | inr n ↦ rw (n, n) (cache_get-cache_set key c cs)
]

get-answered :
    (get_json : Text → Result InfoPayload) (max_age now : ℕ) (symbol : Text) (cache : FilterCache)
    (c : Cached)
    → cache_get (upper symbol) cache ≡ some c
    → now < c.fetched_at + max_age
    → get get_json max_age now symbol false cache
      ≡ record { outcome = ok c.filters; cache = cache; requests = 0 }
unfolding get
get-answered get_json max_age now symbol cache c e l = rw (get, e) (ground arith)

get-cases :
    (get_json : Text → Result InfoPayload) (max_age now : ℕ) (symbol : Text) (force : Bool)
    (cache : FilterCache)
    → ((get get_json max_age now symbol force cache).requests ≡ 0)
      ⊎ (get get_json max_age now symbol force cache
          ≡ store (upper symbol) now cache (parsed_answer (get_json (upper symbol))))
unfolding get
get-cases get_json max_age now symbol force cache =
    elim (Option-cases (cache_get (upper symbol) cache)) [
      | inl n ↦ inr (rw (get, n) refl)
      | inr (c, e) ↦ elim (Bool-cases (not force && ltb now (c.fetched_at + max_age))) [
        | inl y ↦ inl (rw (get, e, y) refl)
        | inr n ↦ inr (rw (get, e, n) refl)
      ]
    ]

store-kept :
    (key : Text) (now : ℕ) (cache : FilterCache) (a : Result ExchangeFilters) (f : ExchangeFilters)
    → (store key now cache a).outcome ≡ ok f
    → cache_get key (store key now cache a).cache ≡ some (record { filters = f; fetched_at = now })
unfolding store
store-kept key now cache (raised e) f h = absurd cc
store-kept key now cache (ok g) f h =
    cache_get-cache_set key (record { filters = g; fetched_at = now }) cache
    ∙ ap (λ x. some (record { filters = x; fetched_at = now })) (ok-injective g f h)

-- Filters that were fetched are answered, for any spelling of the symbol and without a request, until
-- they reach the age `max_age`.
pub get-fresh :
    (get_json later_json : Text → Result InfoPayload) (max_age now later : ℕ)
    (symbol spelling : Text) (force : Bool) (cache : FilterCache) (f : ExchangeFilters)
    → let fetched = get get_json max_age now symbol force cache in
      fetched.outcome ≡ ok f
      → fetched.requests ≡ 1
      → upper spelling ≡ upper symbol
      → later < now + max_age
      → get later_json max_age later spelling false fetched.cache
        ≡ record { outcome = ok f; cache = fetched.cache; requests = 0 }
get-fresh get_json later_json max_age now later symbol spelling force cache f o r s l =
    elim (get-cases get_json max_age now symbol force cache) [
      | inl z ↦ absurd (omega arith)
      | inr q ↦
          get-answered later_json max_age later spelling
            (get get_json max_age now symbol force cache).cache
            (record { filters = f; fetched_at = now })
            (rw s (
              rw q (
                store-kept (upper symbol) now cache (parsed_answer (get_json (upper symbol))) f
                  (subst (λ x. x.outcome ≡ ok f) q o))))
            l
    ]
