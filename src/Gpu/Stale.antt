-- ===== src/Gpu/Stale.antt =====
-- `pull_command` when `read` returns nothing: at the end of the connection, or on an error.
use fan_master_thesis.Base.{
  ℕ, ◌≡◌, ap, ◌∙◌, some, List, [], arith, write_at, write_at-fits, >>=-eq-some,
}
use fan_master_thesis.Stream.Items.{text_kind}
use fan_master_thesis.Stream.Deserializer.{Deserializer, Got, get, get_text, get_value, clean}
use fan_master_thesis.Gpu.Instance.{GpuInstance, name_behind, pull_command}

get_text-mdata :
    (d d' : Deserializer) (got : Got) → get text_kind d ≡ some (got, d') → d'.mdata ≡ d.mdata
unfolding get get_text get_value
get_text-mdata d d' got e = ground arith

-- Writing nothing at the start leaves a buffer as it is.
write_at-nil : (mem : List ℕ) → write_at mem 0 [] ≡ some mem
write_at-nil mem = write_at-fits mem [] 0 (omega arith)

module _ {S : Type 0} where
  -- The result of `read` is not looked at: as long as the receive buffer is as the last command left
  -- it, a `read` that returns nothing makes `pull_command` give the same command again, its
  -- arguments to be read from the same offset.
  pub pull_command-again :
      (chunk name : List ℕ) (g g₁ h : GpuInstance S)
      → pull_command chunk g ≡ some (name, g₁)
      → h.deserializer.mdata ≡ g₁.deserializer.mdata
      → pull_command [] h ≡ some (name, record h { deserializer = g₁.deserializer })
  unfolding pull_command clean
  pull_command-again chunk name g g₁ h e same =
      let (m, wrote, e₁) = >>=-eq-some (write_at g.deserializer.mdata 0 chunk) _ e in
      let d₀ : Deserializer = record { mdata = m; mcount = 0 } in
      let ((got, d), read, e₂) = >>=-eq-some (get text_kind d₀) _ e₁ in
      let (name', named, e₃) = >>=-eq-some (name_behind m got) _ e₂ in
      let names : name' ≡ name = ground arith in
      let states : g₁.deserializer ≡ d = ground arith in
      let held : h.deserializer.mdata ≡ m =
        same ∙ ap (λ x. x.mdata) states ∙ get_text-mdata d₀ d got read in
      rw (held, write_at-nil m, read, named, names, states)
