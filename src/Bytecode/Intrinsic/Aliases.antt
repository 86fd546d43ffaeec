-- ===== src/Bytecode/Intrinsic/Aliases.antt =====
-- src/include/vpp/bytecode/intrinsic.h: the other names of the VM intrinsics.
use Prim.Native.String.{String}
use vxx.Prelude.{List, [], ◌∷◌}
use vxx.Bytecode.Opcode.{
  Opcode, op_native_artifact_chay, op_vm_bien_dich_phan_tich, op_vm_bytecode_chay,
  op_vm_dns_phan_giai, op_vm_doc_bien_moi_truong, op_vm_dong_ho_dia_phuong, op_vm_dong_ho_utc,
  op_vm_duong_dan_ton_tai, op_vm_float_from_bits, op_vm_identity_hash, op_vm_io_doc_bytes,
  op_vm_io_doc_file, op_vm_io_ghi_bytes, op_vm_io_ghi_file, op_vm_io_ghi_tiep_file,
  op_vm_kich_ban_chay, op_vm_la_tep, op_vm_la_thu_muc, op_vm_la_thu_muc_khong_theo_lien_ket,
  op_vm_length, op_vm_liet_ke_thu_muc, op_vm_list_append, op_vm_list_remove,
  op_vm_machine_dir_close, op_vm_machine_dir_mkdir, op_vm_machine_dir_next, op_vm_machine_dir_open,
  op_vm_machine_dir_remove, op_vm_machine_entropy_read, op_vm_machine_env_get,
  op_vm_machine_file_close, op_vm_machine_file_error, op_vm_machine_file_open,
  op_vm_machine_file_read, op_vm_machine_file_remove, op_vm_machine_file_seek,
  op_vm_machine_file_tell, op_vm_machine_file_write, op_vm_machine_path_kind,
  op_vm_machine_process_arg, op_vm_machine_process_close, op_vm_machine_process_command_line,
  op_vm_machine_process_egid, op_vm_machine_process_env, op_vm_machine_process_error,
  op_vm_machine_process_euid, op_vm_machine_process_gid, op_vm_machine_process_new,
  op_vm_machine_process_pid, op_vm_machine_process_poll, op_vm_machine_process_ppid,
  op_vm_machine_process_read, op_vm_machine_process_start, op_vm_machine_process_uid,
  op_vm_machine_process_wait, op_vm_machine_resolve_close, op_vm_machine_resolve_next,
  op_vm_machine_resolve_open, op_vm_machine_socket_accept, op_vm_machine_socket_close,
  op_vm_machine_socket_connect, op_vm_machine_socket_kind, op_vm_machine_socket_listen,
  op_vm_machine_socket_recv, op_vm_machine_socket_send, op_vm_machine_socket_timeout,
  op_vm_machine_time_local, op_vm_machine_time_monotonic, op_vm_machine_time_realtime,
  op_vm_machine_time_sleep, op_vm_machine_tls_recv, op_vm_machine_tls_send,
  op_vm_machine_tls_upgrade, op_vm_map_has, op_vm_map_keys, op_vm_map_remove,
  op_vm_ngau_nhien_bao_mat_bytes, op_vm_ngu_mili_giay, op_vm_so_thuc_bits, op_vm_socket_chap_nhan,
  op_vm_socket_dat_timeout, op_vm_socket_dong, op_vm_socket_gui, op_vm_socket_nhan,
  op_vm_socket_phan_giai, op_vm_socket_tcp_lang_nghe, op_vm_socket_tcp_mo,
  op_vm_socket_tls_nang_cap, op_vm_socket_udp_mo, op_vm_string_bytes, op_vm_string_from_bytes,
  op_vm_tao_thu_muc, op_vm_ten_nen_tang, op_vm_thoi_gian_don_dieu_ms, op_vm_thread_cancel,
  op_vm_thread_park, op_vm_thread_spawn, op_vm_thread_status, op_vm_thread_wait,
  op_vm_tien_trinh_chay, op_vm_type_of, op_vm_xoa_duong_dan,
}

-- `aliases` in `intrinsicByName`
unfoldable pub aliases : List (String × Opcode)
aliases =
    ("máy ảo lấy loại", op_vm_type_of)
    ∷ ("máy ảo băm định danh", op_vm_identity_hash)
    ∷ ("máy ảo liệt kê khóa từ điển", op_vm_map_keys)
    ∷ ("máy ảo thêm cuối danh sách", op_vm_list_append)
    ∷ ("máy ảo xóa vị trí danh sách", op_vm_list_remove)
    ∷ ("máy ảo có khóa từ điển", op_vm_map_has)
    ∷ ("máy ảo xóa khóa từ điển", op_vm_map_remove)
    ∷ ("máy ảo lấy độ dài", op_vm_length)
    ∷ ("biên dịch phân tích máy ảo", op_vm_bien_dich_phan_tich)
    ∷ ("mã trung gian chạy máy ảo", op_vm_bytecode_chay)
    ∷ ("mã trung gian chạy bản địa", op_native_artifact_chay)
    ∷ ("phân giải tên miền phân giải máy ảo", op_vm_dns_phan_giai)
    ∷ ("đọc biến moi truong máy ảo", op_vm_doc_bien_moi_truong)
    ∷ ("đóng ho dia phuong máy ảo", op_vm_dong_ho_dia_phuong)
    ∷ ("đóng ho giờ quốc tế máy ảo", op_vm_dong_ho_utc)
    ∷ ("đường dẫn tồn tại máy ảo", op_vm_duong_dan_ton_tai)
    ∷ ("io đọc các byte máy ảo", op_vm_io_doc_bytes)
    ∷ ("io đọc tệp dữ liệu máy ảo", op_vm_io_doc_file)
    ∷ ("io ghi các byte máy ảo", op_vm_io_ghi_bytes)
    ∷ ("io ghi tệp dữ liệu máy ảo", op_vm_io_ghi_file)
    ∷ ("io ghi tiep tệp dữ liệu máy ảo", op_vm_io_ghi_tiep_file)
    ∷ ("chạy kịch bản máy ảo", op_vm_kich_ban_chay)
    ∷ ("la tệp máy ảo", op_vm_la_tep)
    ∷ ("la thư mục không theo liên kết máy ảo", op_vm_la_thu_muc_khong_theo_lien_ket)
    ∷ ("la thư mục máy ảo", op_vm_la_thu_muc)
    ∷ ("liet ke thư mục máy ảo", op_vm_liet_ke_thu_muc)
    ∷ ("ngẫu nhiên bảo mật các byte máy ảo", op_vm_ngau_nhien_bao_mat_bytes)
    ∷ ("ngủ mili giây máy ảo", op_vm_ngu_mili_giay)
    ∷ ("bit số thực máy ảo", op_vm_so_thuc_bits)
    ∷ ("đầu nối chấp nhận máy ảo", op_vm_socket_chap_nhan)
    ∷ ("đầu nối đặt thời gian chờ máy ảo", op_vm_socket_dat_timeout)
    ∷ ("đầu nối đóng máy ảo", op_vm_socket_dong)
    ∷ ("đầu nối gửi máy ảo", op_vm_socket_gui)
    ∷ ("đầu nối nhận máy ảo", op_vm_socket_nhan)
    ∷ ("đầu nối phân giải máy ảo", op_vm_socket_phan_giai)
    ∷ ("đầu nối giao vận tin cậy lắng nghe máy ảo", op_vm_socket_tcp_lang_nghe)
    ∷ ("đầu nối giao vận tin cậy mở máy ảo", op_vm_socket_tcp_mo)
    ∷ ("đầu nối tls nâng cấp máy ảo", op_vm_socket_tls_nang_cap)
    ∷ ("đầu nối giao vận gói tin mở máy ảo", op_vm_socket_udp_mo)
    ∷ ("tạo thư mục máy ảo", op_vm_tao_thu_muc)
    ∷ ("ten nền tảng máy ảo", op_vm_ten_nen_tang)
    ∷ ("thời gian đơn điệu ms máy ảo", op_vm_thoi_gian_don_dieu_ms)
    ∷ ("tiến trình chạy máy ảo", op_vm_tien_trinh_chay)
    ∷ ("xóa đường dẫn máy ảo", op_vm_xoa_duong_dan)
    ∷ ("luồng máy ảo khởi chạy", op_vm_thread_spawn)
    ∷ ("luồng máy ảo đợi", op_vm_thread_wait)
    ∷ ("luồng máy ảo hủy", op_vm_thread_cancel)
    ∷ ("luồng máy ảo trạng thái", op_vm_thread_status)
    ∷ ("luồng máy ảo nghỉ", op_vm_thread_park)
    ∷ ("băm định danh", op_vm_identity_hash)
    ∷ ("khóa từ điển", op_vm_map_keys)
    ∷ ("chuỗi thành byte máy ảo", op_vm_string_bytes)
    ∷ ("chuỗi từ byte máy ảo", op_vm_string_from_bytes)
    ∷ ("số thực từ bit máy ảo", op_vm_float_from_bits)
    ∷ ("máy tệp mở", op_vm_machine_file_open)
    ∷ ("máy tệp đọc", op_vm_machine_file_read)
    ∷ ("máy tệp ghi", op_vm_machine_file_write)
    ∷ ("máy tệp đóng", op_vm_machine_file_close)
    ∷ ("máy tệp dịch", op_vm_machine_file_seek)
    ∷ ("máy tệp vị trí", op_vm_machine_file_tell)
    ∷ ("máy tệp lỗi", op_vm_machine_file_error)
    ∷ ("máy tệp xóa", op_vm_machine_file_remove)
    ∷ ("máy tiến trình mã tiến trình", op_vm_machine_process_pid)
    ∷ ("máy tiến trình mã tiến trình cha", op_vm_machine_process_ppid)
    ∷ ("máy tiến trình mã người dùng", op_vm_machine_process_uid)
    ∷ ("máy tiến trình mã người dùng hiệu lực", op_vm_machine_process_euid)
    ∷ ("máy tiến trình mã nhóm", op_vm_machine_process_gid)
    ∷ ("máy tiến trình mã nhóm hiệu lực", op_vm_machine_process_egid)
    ∷ ("máy ngủ mili giây", op_vm_machine_time_sleep)
    ∷ ("máy đồng hồ đơn điệu", op_vm_machine_time_monotonic)
    ∷ ("máy đồng hồ giờ quốc tế", op_vm_machine_time_realtime)
    ∷ ("máy nguồn ngẫu nhiên các byte", op_vm_machine_entropy_read)
    ∷ ("máy môi trường đọc", op_vm_machine_env_get)
    ∷ ("máy đồng hồ địa phương", op_vm_machine_time_local)
    ∷ ("máy thư mục tạo", op_vm_machine_dir_mkdir)
    ∷ ("máy thư mục xóa", op_vm_machine_dir_remove)
    ∷ ("máy thư mục mở", op_vm_machine_dir_open)
    ∷ ("máy thư mục kế", op_vm_machine_dir_next)
    ∷ ("máy thư mục đóng", op_vm_machine_dir_close)
    ∷ ("máy đường loại", op_vm_machine_path_kind)
    ∷ ("máy đầu nối loại", op_vm_machine_socket_kind)
    ∷ ("máy đầu nối đóng", op_vm_machine_socket_close)
    ∷ ("máy đầu nối thời gian chờ", op_vm_machine_socket_timeout)
    ∷ ("máy đầu nối gửi", op_vm_machine_socket_send)
    ∷ ("máy đầu nối nhận", op_vm_machine_socket_recv)
    ∷ ("máy đầu nối chấp nhận", op_vm_machine_socket_accept)
    ∷ ("máy đầu nối lắng nghe", op_vm_machine_socket_listen)
    ∷ ("máy đầu nối kết nối", op_vm_machine_socket_connect)
    ∷ ("máy tiến trình tạo", op_vm_machine_process_new)
    ∷ ("máy tiến trình đối số", op_vm_machine_process_arg)
    ∷ ("máy tiến trình lệnh windows", op_vm_machine_process_command_line)
    ∷ ("máy tiến trình môi trường", op_vm_machine_process_env)
    ∷ ("máy tiến trình bắt đầu", op_vm_machine_process_start)
    ∷ ("máy tiến trình thăm dò", op_vm_machine_process_poll)
    ∷ ("máy tiến trình đọc", op_vm_machine_process_read)
    ∷ ("máy tiến trình đợi", op_vm_machine_process_wait)
    ∷ ("máy tiến trình lỗi", op_vm_machine_process_error)
    ∷ ("máy tiến trình đóng", op_vm_machine_process_close)
    ∷ ("máy bộ phân giải mở", op_vm_machine_resolve_open)
    ∷ ("máy bộ phân giải tiếp", op_vm_machine_resolve_next)
    ∷ ("máy bộ phân giải đóng", op_vm_machine_resolve_close)
    ∷ ("máy tls nâng cấp", op_vm_machine_tls_upgrade)
    ∷ ("máy tls gửi", op_vm_machine_tls_send)
    ∷ ("máy tls nhận", op_vm_machine_tls_recv)
    ∷ ("loại của", op_vm_type_of)
    ∷ ("độ dài", op_vm_length)
    ∷ ("thêm", op_vm_list_append)
    ∷ ("xóa tại", op_vm_list_remove)
    ∷ ("có khóa", op_vm_map_has)
    ∷ ("xóa khóa", op_vm_map_remove)
    ∷ ("khóa map", op_vm_map_keys)
    ∷ []
