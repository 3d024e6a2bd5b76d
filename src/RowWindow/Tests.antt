-- ===== src/RowWindow/Tests.antt =====
-- front/src/helpers/virtual.ts: runs of the window.
use trekker.Prelude.{◌≡◌, refl, arith}
use trekker.RowWindow.{above, below, overscan_default, row_window}
use trekker.RowWindow.Rows.{row_window-IsWindow, IsWindow}

row_window_middle :
    row_window 1000 20 (above 4000) (above 600) overscan_default
    ≡ record { start = 192; end = 239; offset = 3840; total = 20000 }
unfolding row_window
row_window_middle = refl

-- A list that is pulled down past its top shows its first rows.
row_window_overscroll :
    row_window 3 20 (below 40) (above 600) overscan_default
    ≡ record { start = 0; end = 3; offset = 0; total = 60 }
unfolding row_window
row_window_overscroll = refl

row_window-IsWindow_example :
    IsWindow 1000 20 (above 4000) (above 600) 8 (row_window 1000 20 (above 4000) (above 600) 8)
row_window-IsWindow_example =
    row_window-IsWindow 1000 20 (above 4000) (above 600) 8 (omega arith) (omega arith)
