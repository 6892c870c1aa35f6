-- ===== src/Tests/Lists.antt =====
-- The theorems on the LRU list, at a list of one entry.
use pktvisor.Prelude.{ℕ, ◌≡◌, find, erase, nat_key}
use pktvisor.Lru.{LruList, new_list, put_element, get_value, erase_element}
use pktvisor.Lru.Links.{IsLinked}
use pktvisor.Lru.Refines.{
  Gives, entries, put_first, put_element-Gives, get_value-entries, erase_element-entries,
  new_list-IsLinked,
}

abbrev small : LruList ℕ ℕ
small = new_list 1

abbrev filled : LruList ℕ ℕ
filled = (put_element small 7 70).0

filled-IsLinked : IsLinked filled
filled-IsLinked = (put_element-Gives small 7 70 (new_list-IsLinked 1)).links

put_element-Gives_example :
    Gives (put_element filled 8 80) (put_first filled.max_size 8 80 (entries filled.items))
put_element-Gives_example = put_element-Gives filled 8 80 filled-IsLinked

get_value-entries_example : get_value filled 7 ≡ find 7 (entries filled.items)
get_value-entries_example = get_value-entries filled 7 filled-IsLinked

erase_element-entries_example :
    IsLinked (erase_element filled 7)
    × (entries (erase_element filled 7).items ≡ erase 7 (entries filled.items))
erase_element-entries_example = erase_element-entries filled 7 filled-IsLinked
