-- ===== src/ListView/Prototype/Tests.antt =====
-- The prototype's list of the mock data.
use release_radar.Prelude.{◌≡◌, refl, List, length}
use release_radar.Data.Rollouts.{rollouts}
use release_radar.ListView.Prototype.{
  MockRow, insert_mock, sort_mocks, mock_rows, first_filters, is_listed, listed_rows, mock_groups,
  counts,
}

mock_list_code : Unit {0}
unfolding insert_mock sort_mocks mock_rows is_listed listed_rows mock_groups counts
mock_list_code = tt

abbrev mocks : List MockRow
unfolding mock_list_code
mocks = mock_rows rollouts

listed :
    (length mocks ≡ 13)
    × (length (listed_rows first_filters mocks) ≡ 12)
    × (length (mock_groups mocks) ≡ 12)
unfolding mock_list_code
listed = (refl, refl, refl)

numbers : ((counts mocks).scheduled ≡ 10) × ((counts mocks).active ≡ 1)
unfolding mock_list_code
numbers = (refl, refl)
