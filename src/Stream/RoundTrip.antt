-- ===== src/Stream/RoundTrip.antt =====
-- From the `operator<<` of the guest to the `operator>>` of the host.
use native.Mathlib.Nat.{zero-add}
use fan_master_thesis.Base.{
  ℕ, ◌+◌, ◌≡◌, refl, sym, ap, ◌∙◌, some, List, [], ◌++◌, length, drop, All, arith, write_at,
  write_at-some_fits, length-write_at,
}
use fan_master_thesis.Stream.Items.{Item, kinds, IsItem, encode_all}
use fan_master_thesis.Stream.Serializer.{Serializer, IsSerializer, buffer_size, put_all, message}
use fan_master_thesis.Stream.Serializer.Message.{message-put_all}
use fan_master_thesis.Stream.Deserializer.{Deserializer, Got, get_all, view_all, clean}
use fan_master_thesis.Stream.Deserializer.RoundTrip.{get_items}

-- Whatever an empty serializer accepted, once its message lies at the start of a receive buffer of
-- the same size, is read back: reading the kinds of the items succeeds, moves the offset just past
-- the message, and leaves operands that stand for the items in order.
pub get_all-put_all :
    (its : List Item) (s t : Serializer) (d : Deserializer) (buf : List ℕ)
    → IsSerializer s
    → s.mcount ≡ 0
    → All IsItem its
    → put_all its s ≡ some t
    → length d.mdata ≡ buffer_size
    → write_at d.mdata 0 (message t) ≡ some buf
    → (gs : List Got) × (get_all (kinds its) (clean (record d { mdata = buf }))
        ≡ some (gs, record { mdata = buf; mcount = length (message t) }))
      × (view_all buf (kinds its) gs ≡ some its)
unfolding clean
get_all-put_all its s t d buf h empty ok sent size received =
    let sent' : message t ≡ encode_all its = message-put_all its h empty sent in
    let (fits, same) = write_at-some_fits d.mdata (message t) 0 received in
    let post : List ℕ = drop (0 + length (message t)) d.mdata in
    let d₀ : Deserializer = record { mdata = buf; mcount = 0 } in
    let (gs, got, seen) = get_items its d₀ [] post ok (record {
      holds = same ∙ ap (λ l. l ++ post) sent';
      at = refl;
      sized = omega (arith, length-write_at d.mdata (message t) 0 received);
    }) in
    let count : 0 + length (encode_all its) ≡ length (message t) =
      zero-add (length (encode_all its)) ∙ ap (λ l. length l) (sym sent') in
    let end : Deserializer → ℕ → Deserializer = λ d n. record d { mcount = n } in
    (gs, got ∙ ap (λ n. some (gs, end d₀ n)) count, seen)
