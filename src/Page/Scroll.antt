-- ===== src/Page/Scroll.antt =====
-- `centerScrollTop` of islands/OsDetail.tsx. Lengths are whole pixels, and the result is given in half
-- pixels, as the middle may fall between two.
use desktopcolors.Common.{ℕ, ◌+◌, ◌-◌, ◌*◌, ◌≤◌, ◌≡◌, arith, if◌then◌else◌, ltb, leb, ◌&&◌}

-- Twice `Math.max(0, Math.min(ideal, scrollHeight - clientHeight))`, where twice `ideal` is
-- `2 * itemOffset - (clientHeight - itemHeight)`: a negative one of the two makes the result 0.
unfoldable pub center_scroll_top : ℕ → ℕ → ℕ → ℕ → ℕ
center_scroll_top item_offset item_height client_height scroll_height =
    let ideal = 2 * item_offset + item_height - client_height in
    let range = 2 * (scroll_height - client_height) in if ltb ideal range then ideal else range

-- Where the item fits into the list's window and lies within its content, it is in view after the list is
-- scrolled there, the list is not scrolled past its end, and the item is in the middle wherever the list
-- can be scrolled so far.
pub center_scroll_top_lem :
    (item_offset item_height client_height scroll_height : ℕ)
    → item_height ≤ client_height
    → item_offset + item_height ≤ scroll_height
    → let top = center_scroll_top item_offset item_height client_height scroll_height in
      (top ≤ 2 * item_offset)
      × (2 * (item_offset + item_height) ≤ top + 2 * client_height)
      × (top ≤ 2 * (scroll_height - client_height))
      × ((if leb client_height (2 * item_offset + item_height)
              && leb
                  (2 * item_offset + item_height - client_height)
                  (2 * (scroll_height - client_height))
            then top + client_height
            else 2 * item_offset + item_height)
          ≡ 2 * item_offset + item_height)
unfolding center_scroll_top
center_scroll_top_lem item_offset item_height client_height scroll_height fits inside =
    (ground arith, ground arith, ground arith, ground arith)
