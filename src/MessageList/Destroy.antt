-- ===== src/MessageList/Destroy.antt =====
-- The end of a message: `zenoh_pico_delete_recv_msg_data`, and `recv_msg_list_destroy` over a queue.
use mathlib.Core.List.{reverse_aux}
use rmw_zenoh_pico.Prelude.{
  ℕ, suc, ◌≡◌, ◌≢◌, refl, ap, ◌∙◌, true, false, some, none, List, [], ◌∷◌, arith, ◌==◌, ℤ, pos, dec,
  is_zero,
}
use rmw_zenoh_pico.Message.{ReceiveMessageData}
use rmw_zenoh_pico.Memory.{
  Ptr, null, Cell, Memory, ok, fault, Released, give_back, upd, write, Holds, load-ok, load_freed,
  upd_self, upd_ne,
}
use rmw_zenoh_pico.MessageList.{
  ReceiveMessageDataList, owned_by, receive_message_data_release, receive_message_data_destroy,
  delete_last, zenoh_pico_delete_recv_msg_data, recv_msg_list_destroy,
}
use rmw_zenoh_pico.MessageList.Chain.{Messages, first, cell_of, IsQueue}
use rmw_zenoh_pico.MessageList.Ends.{Ensures, top-Holds}

abbrev pub with_ref : ℤ → Cell → Cell
with_ref r c = let m = c.msg in record c { msg = record m { ref = r } }

give_back_all :
    (rs : List Released) (s : Memory)
    → give_back rs s ≡ ok tt (record s { released = reverse_aux rs s.released })
give_back_all [] s = refl
give_back_all (r ∷ rs) s = give_back_all rs (record s { released = r ∷ s.released })

release-ok :
    (s : Memory) (p : Ptr) (c : Cell)
    → Holds s p c
    → receive_message_data_release p s
      ≡ ok (is_zero (dec c.msg.ref)) (write s p (some (with_ref (dec c.msg.ref) c)))
unfolding receive_message_data_release
release-ok s p c h = rw (load-ok s p h)

destroy_unreferenced :
    (s : Memory) (p : Ptr) (c : Cell)
    → Holds s p c
    → is_zero c.msg.ref ≡ true
    → receive_message_data_destroy p s ≡ ok tt (write s p none)
unfolding receive_message_data_destroy
destroy_unreferenced s p c h z = rw (load-ok s p h, z)

delete_last-ok :
    (s : Memory) (p : Ptr) (c : Cell)
    → Holds s p c
    → is_zero c.msg.ref ≡ true
    → delete_last p s
      ≡ ok tt
          (record { cell = upd s.cell p none; released = reverse_aux (owned_by c.msg) s.released })
unfolding delete_last
delete_last-ok s p c h z =
    let s1 = record s { released = reverse_aux (owned_by c.msg) s.released } in
    rw (load-ok s p h, give_back_all (owned_by c.msg) s, destroy_unreferenced s1 p c h z)

-- The memory after the last reference is gone.
abbrev pub freed : Memory → Ptr → Cell → Memory
freed s p c = record {
  cell = upd (upd s.cell p (some (with_ref (pos 0) c))) p none;
  released = reverse_aux (owned_by c.msg) s.released;
}

pub delete-ok :
    (s : Memory) (p : Ptr) (c : Cell)
    → Holds s p c
    → c.msg.ref ≡ pos 1
    → zenoh_pico_delete_recv_msg_data p s ≡ ok true (freed s p c)
unfolding zenoh_pico_delete_recv_msg_data
delete-ok s p c h one =
    let live : (p == null) ≡ false = ground (arith, h.0) in
    let s1 = write s p (some (with_ref (pos 0) c)) in
    rw (
      live,
      release-ok s p c h,
      ap dec one,
      delete_last-ok s1 p (with_ref (pos 0) c) (h.0, upd_self s.cell p _) refl,
    )

-- While a reference is left, the struct stays in memory whatever the count.
pub destroy_referenced :
    (s : Memory) (p : Ptr) (c : Cell)
    → Holds s p c
    → is_zero c.msg.ref ≡ false
    → receive_message_data_destroy p s ≡ ok tt s
unfolding receive_message_data_destroy
destroy_referenced s p c h z = rw (load-ok s p h, z)

-- Deleting a message by its last reference ends with the struct freed and with its payload, its gid
-- and, for a query, its key expression and its query handle given back once each; no other struct
-- changes.
pub delete-last_reference :
    (s : Memory) (p : Ptr) (c : Cell)
    → Holds s p c
    → c.msg.ref ≡ pos 1
    → Ensures
        (λ done s'.
          (done ≡ true)
          × (s'.cell p ≡ none)
          × ((a : Ptr) → a ≢ p → s'.cell a ≡ s.cell a)
          × (s'.released ≡ reverse_aux (owned_by c.msg) s.released))
        (zenoh_pico_delete_recv_msg_data p s)
delete-last_reference s p c h one = rw (delete-ok s p c h one) (
  refl,
  upd_self (upd s.cell p _) p none,
  (λ a ne. upd_ne (upd s.cell p _) p a none ne ∙ upd_ne s.cell p a _ ne),
  refl,
)

-- Deleting a message that another holder still refers to only counts down.
pub delete_shared :
    (s : Memory) (p : Ptr) (c : Cell) (k : ℕ)
    → Holds s p c
    → c.msg.ref ≡ pos (suc (suc k))
    → zenoh_pico_delete_recv_msg_data p s ≡ ok true (write s p (some (with_ref (pos (suc k)) c)))
unfolding zenoh_pico_delete_recv_msg_data
delete_shared s p c k h two =
    let live : (p == null) ≡ false = ground (arith, h.0) in
    rw (live, release-ok s p c h, ap dec two)

-- `recv_msg_list_destroy` of a queue whose first message has no other holder reads the `next` field
-- of the struct that it has just freed: a use after free, for every queue that is not empty.
pub destroy-use_after_free :
    (s : Memory) (l : ReceiveMessageDataList) (p : Ptr) (m : ReceiveMessageData) (xs : Messages)
    (fuel : ℕ)
    → IsQueue s l ((p, m) ∷ xs)
    → m.ref ≡ pos 1
    → recv_msg_list_destroy (suc fuel) l s ≡ fault
unfolding recv_msg_list_destroy
destroy-use_after_free s l p m xs fuel is one =
    let (some_top, holds) = top-Holds s l p m xs is in
    let c = cell_of (first xs null) m in
    rw (
      some_top,
      delete-ok s l.que_top c holds one,
      load_freed (freed s l.que_top c) l.que_top (upd_self (upd s.cell l.que_top _) l.que_top none),
    )
