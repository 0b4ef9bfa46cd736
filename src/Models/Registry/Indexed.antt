-- ===== src/Models/Registry/Indexed.antt =====
-- The three indexes of the registry of protoneo/llm/registry.py.
use protoneo.Prelude.{
  String, ◌≡◌, refl, Bool, true, false, ◌||◌, List, [], ◌∷◌, foldl, if◌then◌else◌, All, ◌==◌,
  All-put_at, All-append_at,
}
use protoneo.Models.{ModelInfo}
use protoneo.Models.Registry.{
  Store, Site, raw_key, register, contains, register_discovered, register_active, site_of,
  load_from_settings,
}
use protoneo.Models.Registry.Entries.{Words, Benchmark, Entry, Settings, prefixed_model_id}

-- Every model stands under its own id, its own provider and its own raw id.
pub record Indexed (s : Store) : Type 0 where
  pub by_id : All (λ e. e.0 ≡ e.1.model_id) s.models
  pub by_provider : All (λ e. All (λ m. e.0 ≡ m.provider) e.1) s.provider_models
  pub by_raw : All (λ e. All (λ m. e.0 ≡ raw_key m) e.1) s.raw_index

pub register-Indexed : (m : ModelInfo) (s : Store) → Indexed s → Indexed (register m s)
unfolding register
register-Indexed m s h = record {
  by_id = All-put_at (λ k n. k ≡ n.model_id) m.model_id m s.models refl h.by_id;
  by_provider =
      All-append_at (λ k n. k ≡ n.provider) m.provider m s.provider_models refl h.by_provider;
  by_raw = All-append_at (λ k n. k ≡ raw_key n) (raw_key m) m s.raw_index refl h.by_raw;
}

if-Indexed : (b : Bool) (s t : Store) → Indexed s → Indexed t → Indexed (if b then s else t)
if-Indexed true s t h k = h
if-Indexed false s t h k = k

-- A loop keeps what its body keeps.
pub foldl-keeps {ℓ κ μ} :
    {A : Type ℓ} {S : Type κ} (P : S → Type μ) (f : S → A → S) (xs : List A) (s : S)
    → ((t : S) (x : A) → P t → P (f t x))
    → P s
    → P (foldl f s xs)
foldl-keeps P f [] s h p = p
foldl-keeps P f (x ∷ xs) s h p = foldl-keeps P f xs (f s x) h (h s x p)

module _ (words : Words) where
  discovered-Indexed :
      (site : Site) (bs : List Benchmark) (bucket : String) (e : Entry) (s : Store)
      → Indexed s
      → Indexed (register_discovered words site bs bucket e s)
  unfolding register_discovered
  discovered-Indexed site bs bucket e s h =
      if-Indexed ((if e.source == "" then bucket else e.source) == "" || e.id == "") s _ h
        (register-Indexed _ s h)

  active-Indexed :
      (site : Site) (bs : List Benchmark) (a : String × String) (s : Store)
      → Indexed s
      → Indexed (register_active words site bs a s)
  unfolding register_active
  active-Indexed site bs (provider, raw_id) s h =
      if-Indexed (raw_id == "" || contains words (prefixed_model_id provider raw_id) s) s _ h
        (register-Indexed _ s h)

  -- The registry that is filled from any settings has every model under its own id, its own provider
  -- and its own raw id.
  pub load-Indexed : (settings : Settings) → Indexed (load_from_settings words settings)
  unfolding load_from_settings
  load-Indexed settings =
      foldl-keeps Indexed _ settings.active_models _
        (λ t a k. active-Indexed (site_of words settings) settings.benchmark_results a t k)
        (foldl-keeps Indexed _ settings.discovered_models _
          (λ t b k.
            foldl-keeps Indexed _ b.1 t
              (λ u e j.
                discovered-Indexed (site_of words settings) settings.benchmark_results b.0 e u j)
              k)
          (record { by_id = tt; by_provider = tt; by_raw = tt }))
