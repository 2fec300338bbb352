-- ===== src/Memory/Repository/Listing.antt =====
-- `ListStock` and `ListReservations`: sorted copies of the two maps.
use stockflow_erp_mock.Common.{◌≡◌, refl, sym, ◌∙◌, none, List, Result, ok, ◌>>◌}
use stockflow_erp_mock.Common.Text.{Text}
use stockflow_erp_mock.Common.Dict.{lookup}
use stockflow_erp_mock.Common.Sort.{
  values, sort_slice, index, IsAscending, lookup-sort_slice, sort_slice-IsAscending,
  ascending_unique,
}
use stockflow_erp_mock.Inventory.Errors.{Error}
use stockflow_erp_mock.Inventory.Model.{StockItem, Reservation}
use stockflow_erp_mock.Memory.Repository.{Repository, CtxErr, check_ctx}
use stockflow_erp_mock.Memory.Repository.Invariant.{IsValid}

abbrev pub sku_of : StockItem → Text
sku_of i = i.sku

abbrev pub id_of : Reservation → Text
id_of x = x.id

unfoldable pub list_stock : CtxErr → Repository → Result Error (List StockItem)
list_stock ctx_err r = do check_ctx ctx_err; ok (sort_slice sku_of (values r.stock))

unfoldable pub list_reservations : CtxErr → Repository → Result Error (List Reservation)
list_reservations ctx_err r = do check_ctx ctx_err; ok (sort_slice id_of (values r.reservations))

-- What the lists of a repository are: ascending by their keys, and with the entries of the maps.
pub record Lists (r : Repository) (items : List StockItem) (all : List Reservation) : Type 0 where
  pub items_ascend : IsAscending sku_of items
  pub items_agree : (k : Text) → lookup k (index sku_of items) ≡ lookup k r.stock
  pub all_ascend : IsAscending id_of all
  pub all_agree : (k : Text) → lookup k (index id_of all) ≡ lookup k r.reservations

-- In a valid repository and without an error of the context, both methods succeed, and list each
-- entry of their map once, in ascending order of the keys.
pub lists_lem :
    (r : Repository)
    → IsValid r
    → (items : List StockItem) × (all : List Reservation) × (list_stock none r ≡ ok items)
      × (list_reservations none r ≡ ok all)
      × Lists r items all
unfolding list_stock list_reservations
lists_lem r v = (
  sort_slice sku_of (values r.stock),
  sort_slice id_of (values r.reservations),
  refl,
  refl,
  record {
    items_ascend = sort_slice-IsAscending sku_of r.stock v.stock_keys v.stock_keyed;
    items_agree = λ k. lookup-sort_slice sku_of k r.stock v.stock_keys v.stock_keyed;
    all_ascend = sort_slice-IsAscending id_of r.reservations v.reservation_keys v.keyed;
    all_agree = λ k. lookup-sort_slice id_of k r.reservations v.reservation_keys v.keyed;
  },
)

-- Two valid repositories that hold the same entries, in whatever order their maps are visited, are
-- listed alike.
pub lists_unordered :
    (ctx_err : CtxErr) (r s : Repository)
    → IsValid r
    → IsValid s
    → ((k : Text) → lookup k r.stock ≡ lookup k s.stock)
    → ((k : Text) → lookup k r.reservations ≡ lookup k s.reservations)
    → (list_stock ctx_err r ≡ list_stock ctx_err s)
      × (list_reservations ctx_err r ≡ list_reservations ctx_err s)
unfolding list_stock list_reservations
lists_unordered ctx_err r s v w stock reservations =
    let items : sort_slice sku_of (values r.stock) ≡ sort_slice sku_of (values s.stock) =
      ascending_unique sku_of _ _ (sort_slice-IsAscending sku_of r.stock v.stock_keys v.stock_keyed)
        (sort_slice-IsAscending sku_of s.stock w.stock_keys w.stock_keyed)
        (λ k.
          lookup-sort_slice sku_of k r.stock v.stock_keys v.stock_keyed
          ∙ stock k
          ∙ sym (lookup-sort_slice sku_of k s.stock w.stock_keys w.stock_keyed)) in
    let all : sort_slice id_of (values r.reservations) ≡ sort_slice id_of (values s.reservations) =
      ascending_unique id_of _ _
        (sort_slice-IsAscending id_of r.reservations v.reservation_keys v.keyed)
        (sort_slice-IsAscending id_of s.reservations w.reservation_keys w.keyed)
        (λ k.
          lookup-sort_slice id_of k r.reservations v.reservation_keys v.keyed
          ∙ reservations k
          ∙ sym (lookup-sort_slice id_of k s.reservations w.reservation_keys w.keyed)) in
    (rw items refl, rw all refl)
